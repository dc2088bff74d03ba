-- ===== src/Pipes/Priority.antt =====
-- Which constraint of a field is shown.
use nestjs_template.Common.{
  ℕ, ◌≤◌, String, ◌≡◌, refl, sym, ap, ◌∙◌, true, false, Option, none, some, List, [], ◌∷◌, leb,
  leb→le, if◌then◌else◌, Bool-cases, inl, inr, Option-cases, arith,
}
use mathlib.Core.Path.{subst}
use nestjs_template.Pipes.{Constraint, priority, insert_by, sort_by, find_message, first_message}

-- The better of a constraint and the best of those behind it: of two with the same number, the one
-- in front.
abbrev pub better : Constraint → Option Constraint → Constraint
better x none = x
better x (some y) = if leb (priority x) (priority y) then x else y

-- Of the constraints with a text, the first of those with the least number.
unfoldable pub best : List Constraint → Option Constraint
best [] = none
best (x ∷ xs) =
    let later = best xs in elim x.message [ none ↦ later | some _ ↦ some (better x later) ]

abbrev pub message_of : Option Constraint → Option String
message_of none = none
message_of (some c) = c.message

-- The first with a text.
abbrev first_text : List Constraint → Option Constraint
first_text [] = none
first_text (x ∷ xs) = let later = first_text xs in elim x.message [ none ↦ later | some _ ↦ some x ]

find_message-first_text : (xs : List Constraint) → find_message xs ≡ message_of (first_text xs)
unfolding find_message
find_message-first_text [] = refl
find_message-first_text (x ∷ xs) = elim (Option-cases x.message) [
  | inl e ↦ rw e (find_message-first_text xs)
  | inr (m, e) ↦ rw e (sym e)
]

-- None of the constraints has a smaller number.
abbrev AtLeast : ℕ → List Constraint → Type 0
AtLeast n [] = Unit
AtLeast n (y ∷ ys) = (n ≤ priority y) × AtLeast n ys

abbrev IsSorted : List Constraint → Type 0
IsSorted [] = Unit
IsSorted (x ∷ xs) = AtLeast (priority x) xs × IsSorted xs

module _ (x y : Constraint) (ys : List Constraint) where
  insert-front : leb (priority x) (priority y) ≡ true → insert_by priority x (y ∷ ys) ≡ x ∷ y ∷ ys
  unfolding insert_by
  insert-front h = ap (λ b. if b then x ∷ y ∷ ys else y ∷ insert_by priority x ys) h

  insert-behind :
      leb (priority x) (priority y) ≡ false
      → insert_by priority x (y ∷ ys) ≡ y ∷ insert_by priority x ys
  unfolding insert_by
  insert-behind h = ap (λ b. if b then x ∷ y ∷ ys else y ∷ insert_by priority x ys) h

module _ (x : Constraint) (xs : List Constraint) where
  first_text-some : (m : String) → x.message ≡ some m → first_text (x ∷ xs) ≡ some x
  first_text-some m e =
      ap {B = Option Constraint} (λ o. elim o [ none ↦ first_text xs | some _ ↦ some x ]) e

  first_text-none : x.message ≡ none → first_text (x ∷ xs) ≡ first_text xs
  first_text-none e =
      ap {B = Option Constraint} (λ o. elim o [ none ↦ first_text xs | some _ ↦ some x ]) e

  best-some : (m : String) → x.message ≡ some m → best (x ∷ xs) ≡ some (better x (best xs))
  unfolding best
  best-some m e =
      ap {B = Option Constraint}
        (λ o. elim o [ none ↦ best xs | some _ ↦ some (better x (best xs)) ]) e

  best-none : x.message ≡ none → best (x ∷ xs) ≡ best xs
  unfolding best
  best-none e =
      ap {B = Option Constraint}
        (λ o. elim o [ none ↦ best xs | some _ ↦ some (better x (best xs)) ]) e

AtLeast-trans : (m n : ℕ) (ys : List Constraint) → m ≤ n → AtLeast n ys → AtLeast m ys
AtLeast-trans m n [] l h = tt
AtLeast-trans m n (y ∷ ys) l (a, h) = (omega (arith, l, a), AtLeast-trans m n ys l h)

above : (x y : Constraint) → leb (priority x) (priority y) ≡ false → priority y ≤ priority x
above x y h = ground (arith, h)

insert-AtLeast :
    (n : ℕ) (x : Constraint) (ys : List Constraint)
    → n ≤ priority x
    → AtLeast n ys
    → AtLeast n (insert_by priority x ys)
unfolding insert_by
insert-AtLeast n x [] l h = (l, tt)
insert-AtLeast n x (y ∷ ys) l (a, h) = elim (Bool-cases (leb (priority x) (priority y))) [
  | inl e ↦ subst (AtLeast n) (sym (insert-front x y ys e)) (l, (a, h))
  | inr e ↦ subst (AtLeast n) (sym (insert-behind x y ys e)) (a, insert-AtLeast n x ys l h)
]

insert-IsSorted :
    (x : Constraint) (ys : List Constraint) → IsSorted ys → IsSorted (insert_by priority x ys)
unfolding insert_by
insert-IsSorted x [] h = (tt, tt)
insert-IsSorted x (y ∷ ys) (a, h) = elim (Bool-cases (leb (priority x) (priority y))) [
  | inl e ↦
      let l = leb→le (priority x) (priority y) e in
      subst IsSorted (sym (insert-front x y ys e))
        ((l, AtLeast-trans (priority x) (priority y) ys l a), (a, h))
  | inr e ↦
      subst IsSorted (sym (insert-behind x y ys e))
        (insert-AtLeast (priority y) x ys (above x y e) a, insert-IsSorted x ys h)
]

sort-IsSorted : (xs : List Constraint) → IsSorted (sort_by priority xs)
unfolding sort_by
sort-IsSorted [] = tt
sort-IsSorted (x ∷ xs) = insert-IsSorted x (sort_by priority xs) (sort-IsSorted xs)

better-le : (x y : Constraint) → priority x ≤ priority y → better x (some y) ≡ x
better-le x y l = ground (arith, l)

better-first_text :
    (x : Constraint) (ys : List Constraint) → AtLeast (priority x) ys → better x (first_text ys) ≡ x
better-first_text x [] h = refl
better-first_text x (y ∷ ys) (a, h) = elim (Option-cases y.message) [
  | inl e ↦ ap (better x) (first_text-none y ys e) ∙ better-first_text x ys h
  | inr (m, e) ↦ ap (better x) (first_text-some y ys m e) ∙ better-le x y a
]

better-behind : (x y : Constraint) → leb (priority x) (priority y) ≡ false → better x (some y) ≡ y
better-behind x y h = ap (λ b. if b then x else y) h

first_text-insert :
    (x : Constraint) (m : String) (ys : List Constraint)
    → x.message ≡ some m
    → IsSorted ys
    → first_text (insert_by priority x ys) ≡ some (better x (first_text ys))
unfolding insert_by
first_text-insert x m [] e h = first_text-some x [] m e
first_text-insert x m (y ∷ ys) e (a, h) = elim (Bool-cases (leb (priority x) (priority y))) [
  | inl l ↦
      let l' = leb→le (priority x) (priority y) l in
      let low = AtLeast-trans (priority x) (priority y) ys l' a in
      ap first_text (insert-front x y ys l)
      ∙ first_text-some x (y ∷ ys) m e
      ∙ ap some (sym (better-first_text x (y ∷ ys) (l', low)))
  | inr g ↦
      let behind = ap first_text (insert-behind x y ys g) in
      elim (Option-cases y.message) [
        | inl f ↦
            behind
            ∙ first_text-none y (insert_by priority x ys) f
            ∙ first_text-insert x m ys e h
            ∙ ap (λ o. some (better x o)) (sym (first_text-none y ys f))
        | inr (k, f) ↦
            behind
            ∙ first_text-some y (insert_by priority x ys) k f
            ∙ ap some (sym (better-behind x y g))
            ∙ ap (λ o. some (better x o)) (sym (first_text-some y ys k f))
      ]
]

first_text-skip :
    (x : Constraint) (ys : List Constraint)
    → x.message ≡ none
    → first_text (insert_by priority x ys) ≡ first_text ys
unfolding insert_by
first_text-skip x [] e = first_text-none x [] e
first_text-skip x (y ∷ ys) e = elim (Bool-cases (leb (priority x) (priority y))) [
  | inl l ↦ ap first_text (insert-front x y ys l) ∙ first_text-none x (y ∷ ys) e
  | inr g ↦
      ap first_text (insert-behind x y ys g)
      ∙ ap {B = Option Constraint} (λ o. elim y.message [ none ↦ o | some _ ↦ some y ])
          (first_text-skip x ys e)
]

first_text-sort : (xs : List Constraint) → first_text (sort_by priority xs) ≡ best xs
unfolding sort_by best
first_text-sort [] = refl
first_text-sort (x ∷ xs) = elim (Option-cases x.message) [
  | inl e ↦ first_text-skip x (sort_by priority xs) e ∙ first_text-sort xs ∙ sym (best-none x xs e)
  | inr (m, e) ↦
      first_text-insert x m (sort_by priority xs) e (sort-IsSorted xs)
      ∙ ap (λ o. some (better x o)) (first_text-sort xs)
      ∙ sym (best-some x xs m e)
]

-- The message that is shown is that of the first of the constraints with the least number.
pub first_message-best : (xs : List Constraint) → first_message xs ≡ message_of (best xs)
unfolding first_message
first_message-best xs =
    find_message-first_text (sort_by priority xs) ∙ ap message_of (first_text-sort xs)
