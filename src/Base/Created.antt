-- ===== src/Base/Created.antt =====
-- Rows that are created one after the other.
use nestjs_template.Common.{
  ℕ, ◌≡◌, ◌∙◌, List, ◌∷◌, ok, pure, ◌>>=◌, bind-ok, bind-inverse, ok-inverse, ap,
}
use nestjs_template.Base.Repository.{Repository, create, create_many}

module _ {S T : Type 0} (repo : Repository S T) where
  pub create_many-cons :
      (make : ℕ → T) (rest : List (ℕ → T)) (s : S) {row : T} {rows : List T} {t u : S}
      → create repo make s ≡ (ok row, t)
      → create_many repo rest t ≡ (ok rows, u)
      → create_many repo (make ∷ rest) s ≡ (ok (row ∷ rows), u)
  unfolding create_many
  create_many-cons make rest s {row} first more =
      bind-ok (create repo make) (λ x. do xs ← create_many repo rest; pure (x ∷ xs)) first
      ∙ bind-ok (create_many repo rest) (λ xs. pure (row ∷ xs)) more

  -- Where all rows were created, the first one was, and then the others.
  pub create_many-inverse :
      (make : ℕ → T) (rest : List (ℕ → T)) (s : S) (rows : List T) (u : S)
      → create_many repo (make ∷ rest) s ≡ (ok rows, u)
      → (row : T) × (more : List T) × (t : S) × (create repo make s ≡ (ok row, t))
        × (create_many repo rest t ≡ (ok more, u))
        × (row ∷ more ≡ rows)
  unfolding create_many
  create_many-inverse make rest s rows u e =
      let (row, t, first, e1) =
        bind-inverse (create repo make) (λ x. do xs ← create_many repo rest; pure (x ∷ xs)) rows s u
          e in
      let (more, v, second, e2) =
        bind-inverse (create_many repo rest) (λ xs. pure (row ∷ xs)) rows t u e1 in
      let (same_rows, same) = ok-inverse e2 in
      (row, more, t, first, second ∙ ap (λ x. (ok more, x)) same, same_rows)
