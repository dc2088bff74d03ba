-- ===== src/Common/Lists.antt =====
-- Lists as tables: Boolean filters, counts and membership over native numbers.
use Prim.Native.Nat.{ℕ, zero, suc}
use mathlib.Core.Path.{◌≡◌, refl}
use mathlib.Core.Logic.{◌⊎◌, inl, inr}
use mathlib.Core.Bool.{Bool, true, false, ◌&&◌, ◌||◌}
use mathlib.Core.Option.{Option, none, some}
use mathlib.Core.List.{List, [], ◌∷◌, ◌++◌}
use native.Mathlib.Omega.{arith}
use nestjs_template.Common.Tests.{if◌then◌else◌, Bool-cases}

module _ {ℓ} {A : Type ℓ} where
  abbrev pub length : List A → ℕ
  length [] = 0
  length (x ∷ xs) = suc (length xs)

  abbrev pub take : ℕ → List A → List A
  take zero xs = []
  take (suc n) [] = []
  take (suc n) (x ∷ xs) = x ∷ take n xs

  -- `find` and `findOne` read a table from its first row.
  abbrev pub find : (A → Bool) → List A → Option A
  find p [] = none
  find p (x ∷ xs) = if p x then some x else find p xs

  -- The rows that a `WHERE` clause selects.
  abbrev pub select : (A → Bool) → List A → List A
  select p [] = []
  select p (x ∷ xs) = if p x then x ∷ select p xs else select p xs

  -- `UPDATE … SET f WHERE p`
  abbrev pub update_where : (A → Bool) → (A → A) → List A → List A
  update_where p f [] = []
  update_where p f (x ∷ xs) = (if p x then f x else x) ∷ update_where p f xs

  -- `UPDATE` of the first row that fits, and of no other.
  abbrev pub update_first : (A → Bool) → (A → A) → List A → List A
  update_first p f [] = []
  update_first p f (x ∷ xs) = if p x then f x ∷ xs else x ∷ update_first p f xs

  -- Removal of the first row that fits.
  abbrev pub remove_first : (A → Bool) → List A → List A
  remove_first p [] = []
  remove_first p (x ∷ xs) = if p x then xs else x ∷ remove_first p xs

  abbrev pub any : (A → Bool) → List A → Bool
  any p [] = false
  any p (x ∷ xs) = p x || any p xs

  abbrev pub every : (A → Bool) → List A → Bool
  every p [] = true
  every p (x ∷ xs) = p x && every p xs

module _ {ℓ κ} {A : Type ℓ} (P : A → Type κ) where
  abbrev pub All : List A → Type κ
  All [] = Unit
  All (x ∷ xs) = P x × All xs

-- `a` is an item of the list; the place is kept.
pub data Has {ℓ} {A : Type ℓ} (a : A) : List A → Type ℓ where
  here : {xs : List A} → Has a (a ∷ xs)
  there : {x : A} {xs : List A} → Has a xs → Has a (x ∷ xs)

module _ {ℓ κ} {A : Type ℓ} (P : A → Type κ) where
  pub All-append : (xs ys : List A) → All P xs → All P ys → All P (xs ++ ys)
  All-append [] ys _ h = h
  All-append (x ∷ xs) ys (p, g) h = (p, All-append xs ys g h)

  pub All-has : {a : A} {xs : List A} → All P xs → Has a xs → P a
  All-has h here = h.0
  All-has h (there m) = All-has h.1 m

module _ {ℓ} {A : Type ℓ} where
  pub Has-cons : {a x : A} {xs : List A} → Has a (x ∷ xs) → (a ≡ x) ⊎ Has a xs
  Has-cons here = inl refl
  Has-cons (there m) = inr m

  pub Has-select :
      (p : A → Bool) {a : A} {xs : List A} → p a ≡ true → Has a xs → Has a (select p xs)
  Has-select p e here = rw e here
  Has-select p e (there {x} m) = elim (Bool-cases (p x)) [
    | inl q ↦ rw q (there (Has-select p e m))
    | inr q ↦ rw q (Has-select p e m)
  ]

  -- What a `WHERE` clause selects meets its test.
  pub select-true : (p : A → Bool) {a : A} (xs : List A) → Has a (select p xs) → p a ≡ true
  select-true p [] m = elim m [ ]
  select-true p {a} (x ∷ xs) m = elim (Bool-cases (p x)) [
    | inl q ↦ elim (Has-cons (rw q at m)) [ inl e ↦ rw e q | inr h ↦ select-true p xs h ]
    | inr q ↦ select-true p xs (rw q at m)
  ]

module _ {ℓ} {A : Type ℓ} where
  pub every-Has : (p : A → Bool) (xs : List A) {a : A} → every p xs ≡ true → Has a xs → p a ≡ true
  every-Has p [] h m = elim m [ ]
  every-Has p (x ∷ xs) h here = ground arith
  every-Has p (x ∷ xs) h (there m) = every-Has p xs (ground arith) m

module _ {ℓ κ} {A : Type ℓ} (P : A → Type κ) where
  pub All-of_Has : (xs : List A) → ((a : A) → Has a xs → P a) → All P xs
  All-of_Has [] h = tt
  All-of_Has (x ∷ xs) h = (h x here, All-of_Has xs (λ a m. h a (there m)))

  pub All-map {μ} : (Q : A → Type μ) (xs : List A) → ((a : A) → P a → Q a) → All P xs → All Q xs
  All-map Q [] f h = tt
  All-map Q (x ∷ xs) f h = (f x h.0, All-map Q xs f h.1)

module _ {ℓ} {A : Type ℓ} (p q : A → Bool) where
  -- An update of rows that are not selected, before and after, is not seen.
  pub select-update_where :
      (f : A → A) (xs : List A)
      → ((x : A) → q x ≡ true → (p x ≡ false) × (p (f x) ≡ false))
      → select p (update_where q f xs) ≡ select p xs
  select-update_where f [] h = refl
  select-update_where f (x ∷ xs) h = elim (Bool-cases (q x)) [
    | inl e ↦ rw (e, (h x e).0, (h x e).1) (select-update_where f xs h)
    | inr e ↦ rw (e, select-update_where f xs h)
  ]

  -- A deletion that keeps all that is selected is not seen.
  pub select-select :
      (xs : List A) → ((x : A) → p x ≡ true → q x ≡ true) → select p (select q xs) ≡ select p xs
  select-select [] h = refl
  select-select (x ∷ xs) h = elim (Bool-cases (p x)) [
    | inl e ↦ rw (h x e) (rw (e, select-select xs h))
    | inr e ↦ elim (Bool-cases (q x)) [
      | inl k ↦ rw k (rw e (select-select xs h))
      | inr k ↦ rw (k, e) (select-select xs h)
    ]
  ]

module _ {ℓ} {A : Type ℓ} where
  pub find-true : (p : A → Bool) (u : A) (xs : List A) → find p xs ≡ some u → p u ≡ true
  find-true p u [] h = cc
  find-true p u (x ∷ xs) h = ground (arith, find-true p u xs)

  -- Two tests that find the same row find it again, as it is after its update.
  pub find-update_first :
      (p q : A → Bool) (f : A → A) (u : A) (xs : List A)
      → find p xs ≡ some u
      → find q xs ≡ some u
      → p (f u) ≡ true
      → find p (update_first q f xs) ≡ some (f u)
  find-update_first p q f u [] a b h = cc
  find-update_first p q f u (x ∷ xs) a b h =
      ground (arith, find-update_first p q f u xs, find-true p u xs, find-true q u xs)

-- Between a test that some item passes and the item.
module _ {ℓ} {A : Type ℓ} (q : A → Bool) where
  pub any-Has : (xs : List A) → any q xs ≡ true → (a : A) × Has a xs × (q a ≡ true)
  any-Has [] h = absurd cc
  any-Has (x ∷ xs) h = elim (Bool-cases (q x)) [
    | inl e ↦ (x, here, e)
    | inr e ↦ let (a, m, k) = any-Has xs (rw e at h) in (a, there m, k)
  ]

  pub Has-any : {a : A} {xs : List A} → Has a xs → q a ≡ true → any q xs ≡ true
  Has-any here h = rw h refl
  Has-any (there {x} m) h = rw (Has-any m h) (go (q x))
    where
      go : (b : Bool) → (b || true) ≡ true
      go true = refl
      go false = refl

  pub select-Has : {a : A} (xs : List A) → Has a (select q xs) → Has a xs
  select-Has [] m = elim m [ ]
  select-Has (x ∷ xs) m = elim (Bool-cases (q x)) [
    | inl e ↦ elim (Has-cons (rw e at m)) [ inl s ↦ rw s here | inr r ↦ there (select-Has xs r) ]
    | inr e ↦ there (select-Has xs (rw e at m))
  ]

module _ {ℓ} {A : Type ℓ} where
  pub Has-left : {a : A} {xs : List A} (ys : List A) → Has a xs → Has a (xs ++ ys)
  Has-left ys here = here
  Has-left ys (there m) = there (Has-left ys m)

  pub Has-right : {a : A} (xs : List A) {ys : List A} → Has a ys → Has a (xs ++ ys)
  Has-right [] m = m
  Has-right (x ∷ xs) m = there (Has-right xs m)

  pub append_assoc : (xs : List A) (a : A) (ys : List A) → (xs ++ a ∷ []) ++ ys ≡ xs ++ a ∷ ys
  append_assoc [] a ys = refl
  append_assoc (x ∷ xs) a ys = rw (append_assoc xs a ys) refl

  pub append-nil : (xs : List A) → xs ++ [] ≡ xs
  append-nil [] = refl
  append-nil (x ∷ xs) = rw (append-nil xs) refl

-- A change of the first row that fits leaves the rows that another test tells from it.
module _ {ℓ} {A : Type ℓ} (p q : A → Bool) where
  pub Has-update_first :
      (f : A → A) (xs : List A) {a e : A}
      → find p xs ≡ some e
      → q e ≡ false
      → q a ≡ true
      → Has a xs
      → Has a (update_first p f xs)
  Has-update_first f [] h e a m = cc
  Has-update_first f (x ∷ xs) h e a m = elim (Bool-cases (p x)) [
    | inl t ↦ elim (Has-cons m) [
      | inl same ↦ absurd (ground (arith, same))
      | inr rest ↦ rw t (there rest)
    ]
    | inr n ↦ elim (Has-cons m) [
      | inl same ↦ rw (n, ← same) here
      | inr rest ↦ rw n (there (Has-update_first f xs (rw n at h) e a rest))
    ]
  ]

  pub Has-remove_first :
      (xs : List A) {a e : A}
      → find p xs ≡ some e
      → q e ≡ false
      → q a ≡ true
      → Has a xs
      → Has a (remove_first p xs)
  Has-remove_first [] h e a m = cc
  Has-remove_first (x ∷ xs) h e a m = elim (Bool-cases (p x)) [
    | inl t ↦ elim (Has-cons m) [ inl same ↦ absurd (ground (arith, same)) | inr rest ↦ rw t rest ]
    | inr n ↦ elim (Has-cons m) [
      | inl same ↦ rw (n, ← same) here
      | inr rest ↦ rw n (there (Has-remove_first xs (rw n at h) e a rest))
    ]
  ]
