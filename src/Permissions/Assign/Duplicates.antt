-- ===== src/Permissions/Assign/Duplicates.antt =====
-- Grants that are there once, and requests that are known.
use nestjs_template.Common.{
  ℕ, suc, ◌≡◌, refl, Bool, true, false, not, ◌&&◌, none, List, [], ◌∷◌, ◌++◌, any, every, find,
  remove_first, member, all_different, ◌==◌, arith, ==_iff, ==_refl, Bool-cases, inl, inr,
}
use nestjs_template.State.{RolePermission}
use nestjs_template.Permissions.Assign.{is_grant}
use nestjs_template.Permissions.Assign.Granted.{is_granted, granted_rows, is_granted-append}

-- No pair is granted twice: the table's unique columns.
abbrev pub no_duplicates : List RolePermission → Bool
no_duplicates [] = true
no_duplicates (g ∷ gs) = not (is_granted gs g.role_id g.permission_id) && no_duplicates gs

granted_rows-no_duplicates :
    (role n : ℕ) (ids : List ℕ)
    → all_different ids ≡ true
    → no_duplicates (granted_rows role n ids) ≡ true
granted_rows-no_duplicates role n [] d = refl
granted_rows-no_duplicates role n (id ∷ ids) d = ground (
  arith,
  is_granted-append role [] (suc n) ids role id,
  granted_rows-no_duplicates role (suc n) ids,
)

pub append-no_duplicates :
    (gs : List RolePermission) (role n : ℕ) (ids : List ℕ)
    → no_duplicates gs ≡ true
    → all_different ids ≡ true
    → ((k : ℕ) → member ids k ≡ true → is_granted gs role k ≡ false)
    → no_duplicates (gs ++ granted_rows role n ids) ≡ true
append-no_duplicates [] role n ids h d new = granted_rows-no_duplicates role n ids d
append-no_duplicates (g ∷ gs) role n ids h d new = ground (
  arith,
  is_granted-append role gs n ids g.role_id g.permission_id,
  append-no_duplicates gs role n ids (ground arith) d (λ k m. ground (arith, new k m)),
  new g.permission_id,
)

pub remove_first-view :
    (gs : List RolePermission) (role permission ρ π : ℕ)
    → no_duplicates gs ≡ true
    → is_granted (remove_first (is_grant role permission) gs) ρ π
      ≡ (is_granted gs ρ π && not (role == ρ && permission == π))
remove_first-view [] role permission ρ π h = refl
remove_first-view (g ∷ gs) role permission ρ π h =
    ground (arith, remove_first-view gs role permission ρ π)

pub find-none :
    (gs : List RolePermission) (role permission ρ π : ℕ)
    → find (is_grant role permission) gs ≡ none
    → is_granted gs ρ π ≡ (is_granted gs ρ π && not (role == ρ && permission == π))
find-none [] role permission ρ π h = refl
find-none (g ∷ gs) role permission ρ π h = ground (arith, find-none gs role permission ρ π)

pub remove_first-no_duplicates :
    (gs : List RolePermission) (role permission : ℕ)
    → no_duplicates gs ≡ true
    → no_duplicates (remove_first (is_grant role permission) gs) ≡ true
remove_first-no_duplicates [] role permission h = refl
remove_first-no_duplicates (g ∷ gs) role permission h = ground (
  arith,
  remove_first-view gs role permission g.role_id g.permission_id,
  remove_first-no_duplicates gs role permission,
)

every-false :
    (q : ℕ → Bool) (ids : List ℕ) (n : ℕ) → member ids n ≡ true → q n ≡ false → every q ids ≡ false
every-false q [] n m h = cc
every-false q (id ∷ ids) n m h = elim (Bool-cases (id == n)) [
  | inl e ↦ rw ((==_iff id n).0 e, h) refl
  | inr e ↦ ground (arith, every-false q ids n)
]

every-true :
    (q : ℕ → Bool) (ids : List ℕ)
    → ((n : ℕ) → member ids n ≡ true → q n ≡ true)
    → every q ids ≡ true
every-true q [] h = refl
every-true q (id ∷ ids) h =
    ground (arith, ==_refl id, h id, every-true q ids (λ n m. ground (arith, h n)))

-- Something is missing exactly when not every id is known.
pub missing-known :
    (q : ℕ → Bool) (ids ns : List ℕ)
    → ((n : ℕ) → member ns n ≡ (member ids n && not (q n)))
    → any (λ _. true) ns ≡ not (every q ids)
missing-known q ids [] h = rw (every-true q ids (λ n m. ground (arith, h n))) refl
missing-known q ids (n ∷ ns) h = ground (arith, ==_refl n, h n, every-false q ids n)
