-- ===== src/Examples/Pages.antt =====
-- The sort that `buildListQuery` takes where none is given, and the theorems on pages applied to it.
use mathlib.Core.List.{Mem, Permᴰ, Pairwise, forall_mem-cons, not-mem-nil}
use mathlib.Core.List.Permᴰ
use mathlib.Core.Bool.{Bool-set}
use nestjs_template.Common.{
  ◌≡◌, refl, Bool, true, false, List, [], ◌∷◌, leb, arith, Bool-cases, inl, inr,
}
use nestjs_template.State.{Role}
use nestjs_template.Base.Listing.{Sorting}

-- `ORDER BY id DESC`
abbrev before : Role → Role → Bool
before x y = leb y.id x.id

insert : Role → List Role → List Role
insert x [] = x ∷ []
insert x (y ∷ ys) = elim (before x y) [ true ↦ x ∷ y ∷ ys | false ↦ y ∷ insert x ys ]

newest_first : List Role → List Role
newest_first [] = []
newest_first (x ∷ xs) = insert x (newest_first xs)

insert-Perm : (x : Role) (ys : List Role) → Permᴰ (insert x ys) (x ∷ ys)
unfolding insert
insert-Perm x [] = Permᴰ.refl (x ∷ [])
insert-Perm x (y ∷ ys) =
    elim (before x y)
      as (λ b. Permᴰ (elim b [ true ↦ x ∷ y ∷ ys | false ↦ y ∷ insert x ys ]) (x ∷ y ∷ ys)) [
        | true ↦ Permᴰ.refl (x ∷ y ∷ ys)
        | false ↦ Permᴰ.trans (Permᴰ.cons refl (insert-Perm x ys)) (Permᴰ.swap refl refl)
      ]

newest_first-Perm : (xs : List Role) → Permᴰ (newest_first xs) xs
unfolding newest_first
newest_first-Perm [] = Permᴰ.nil
newest_first-Perm (x ∷ xs) =
    Permᴰ.trans (insert-Perm x (newest_first xs)) (Permᴰ.cons refl (newest_first-Perm xs))

abbrev Sorted : List Role → Type 0
Sorted = Pairwise (λ x y. before x y ≡ true)

abbrev IsBefore : Role → List Role → Type 0
IsBefore x ys = (z : Role) → Mem z ys → before x z ≡ true

IsBefore-cons :
    (x y : Role) (ys : List Role) → before x y ≡ true → IsBefore x ys → IsBefore x (y ∷ ys)
IsBefore-cons x y ys e h = (forall_mem-cons (λ z. Bool-set (before x z) true)).1 (e, h)

insert-IsBefore :
    (y x : Role) (ys : List Role) → before y x ≡ true → IsBefore y ys → IsBefore y (insert x ys)
insert-IsBefore y x ys e h z m = IsBefore-cons y x ys e h z (Permᴰ.mem (insert-Perm x ys) m)

insert-Sorted : (x : Role) (ys : List Role) → Sorted ys → Sorted (insert x ys)
unfolding insert
insert-Sorted x [] s = Pairwise.cons (λ z m. absurd (not-mem-nil m)) Pairwise.nil
insert-Sorted x (y ∷ ys) (Pairwise.cons h s) = elim (Bool-cases (before x y)) [
  | inl e ↦
      rw (e, insert)
        (Pairwise.cons (IsBefore-cons x y ys e (λ z m. let below = h z m in ground arith))
          (Pairwise.cons h s))
  | inr e ↦
      rw (e, insert)
        (Pairwise.cons (insert-IsBefore y x ys (ground arith) h) (insert-Sorted x ys s))
]

newest_first-Sorted : (xs : List Role) → Sorted (newest_first xs)
unfolding newest_first
newest_first-Sorted [] = Pairwise.nil
newest_first-Sorted (x ∷ xs) = insert-Sorted x (newest_first xs) (newest_first-Sorted xs)

abbrev by_id : Sorting Role
by_id = record {
  before = before;
  order = λ q rows. newest_first rows;
  reflexive = λ x. ground arith;
  permutes = λ q rows. newest_first-Perm rows;
  sorts = λ q rows. newest_first-Sorted rows;
}
