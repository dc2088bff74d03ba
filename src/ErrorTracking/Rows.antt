-- ===== src/ErrorTracking/Rows.antt =====
-- The rows of errors under the upsert and the mark.
use nestjs_template.Common.{
  ℕ, ◌+◌, String, ◌≡◌, ◌∙◌, refl, Bool, false, none, some, List, [], ◌∷◌, ◌++◌, find, update_first,
  find-update_first, find-true, ◌===◌, ===_refl, eq_iff, Bool-cases, Option-cases, inl, inr, arith,
  if◌then◌else◌,
}
use nestjs_template.ErrorTracking.{
  ServerError, Occurrence, is_of, seen_again, first_seen, UpdateServerError, change_error,
}

-- How often an error was seen.
abbrev pub count_of : String → List ServerError → ℕ
count_of f rows = elim (find (is_of f) rows) [ none ↦ 0 | some row ↦ row.occurrence_count ]

abbrev pub one_if : Bool → ℕ
one_if b = if b then 1 else 0

abbrev pub upserted : String → Occurrence → ℕ → ℕ → List ServerError → List ServerError
upserted fp e now id rows = elim (find (is_of fp) rows) [
  | none ↦ rows ++ first_seen fp e now id ∷ []
  | some row ↦ update_first (is_of fp) (seen_again now e.stack) rows
]

find-append :
    (f : String) (new : ServerError) (rows : List ServerError)
    → find (is_of f) rows ≡ none
    → find (is_of f) (rows ++ new ∷ []) ≡ (if is_of f new then some new else none)
find-append f new [] h = refl
find-append f new (row ∷ rows) h = ground (arith, find-append f new rows)

count-append :
    (f : String) (new : ServerError) (rows : List ServerError)
    → is_of f new ≡ false
    → count_of f (rows ++ new ∷ []) ≡ count_of f rows
count-append f new [] h = ground arith
count-append f new (row ∷ rows) h = ground (arith, count-append f new rows)

-- An update of the row of one error is not seen in the count of another.
count-update_other :
    (f fp : String) (g : ServerError → ServerError) (rows : List ServerError)
    → (fp === f) ≡ false
    → ((row : ServerError) → (g row).fingerprint ≡ row.fingerprint)
    → count_of f (update_first (is_of fp) g rows) ≡ count_of f rows
count-update_other f fp g [] other keeps = refl
count-update_other f fp g (row ∷ rows) other keeps = elim (Bool-cases (is_of fp row)) [
  | inl e ↦
      let same = (eq_iff row.fingerprint fp).0 e in
      let before : (row.fingerprint === f) ≡ false = rw same other in
      let after : ((g row).fingerprint === f) ≡ false = rw (keeps row, same) other in
      ground (arith, e, before, after)
  | inr e ↦ ground (arith, e, count-update_other f fp g rows other keeps)
]

count_of-none :
    (f : String) (rows : List ServerError) → find (is_of f) rows ≡ none → count_of f rows ≡ 0
count_of-none f rows h = rw (h, count_of) refl

count_of-some :
    (f : String) (rows : List ServerError) (row : ServerError)
    → find (is_of f) rows ≡ some row
    → count_of f rows ≡ row.occurrence_count
count_of-some f rows row h = rw (h, count_of) refl

module _ (fp : String) (e : Occurrence) (now id : ℕ) (rows : List ServerError) where
  upserted-none :
      find (is_of fp) rows ≡ none → upserted fp e now id rows ≡ rows ++ first_seen fp e now id ∷ []
  upserted-none h = rw (h, upserted) refl

  upserted-some :
      (row : ServerError)
      → find (is_of fp) rows ≡ some row
      → upserted fp e now id rows ≡ update_first (is_of fp) (seen_again now e.stack) rows
  upserted-some row h = rw (h, upserted) refl

  pub upserted-found :
      (row : ServerError) × (find (is_of fp) (upserted fp e now id rows) ≡ some row)
      × (row.occurrence_count ≡ count_of fp rows + 1)
  upserted-found = elim (Option-cases (find (is_of fp) rows)) [
    | inl h ↦ (
      first_seen fp e now id,
      rw (upserted-none h, find-append fp (first_seen fp e now id) rows h, ===_refl fp) refl,
      rw (count_of-none fp rows h) ground arith,
    )
    | inr (row, h) ↦ (
      seen_again now e.stack row,
      rw (upserted-some row h) (
          find-update_first (is_of fp) (is_of fp) (seen_again now e.stack) row rows h h
            (find-true (is_of fp) row rows h)),
      rw (count_of-some fp rows row h) refl,
    )
  ]

  pub count-upserted :
      (f : String) → count_of f (upserted fp e now id rows) ≡ one_if (fp === f) + count_of f rows
  count-upserted f = elim (Bool-cases (fp === f)) [
    | inl same ↦
        let (row, found, seen) = upserted-found in
        rw
          (
            ← (eq_iff fp f).0 same,
            ===_refl fp,
            count_of-some fp (upserted fp e now id rows) row found,
          )
          (seen ∙ omega arith)
    | inr other ↦ elim (Option-cases (find (is_of fp) rows)) [
      | inl h ↦
          rw (upserted-none h, other)
            (count-append f (first_seen fp e now id) rows other ∙ omega arith)
      | inr (row, h) ↦
          rw (upserted-some row h, other)
            (count-update_other f fp (seen_again now e.stack) rows other (λ x. refl) ∙ omega arith)
    ]
  ]

-- A mark on the row of an error changes no count.
pub count-marked :
    (f fp : String) (dto : UpdateServerError) (rows : List ServerError)
    → count_of f (update_first (is_of fp) (change_error dto) rows) ≡ count_of f rows
count-marked f fp dto [] = refl
count-marked f fp dto (row ∷ rows) = ground (arith, count-marked f fp dto rows)
