-- ===== src/Base/Sorted.antt =====
-- Rows without ties have one order.
use mathlib.Core.Path.{ap₂}
use mathlib.Core.Bool.{Bool-set}
use mathlib.Core.List.{Memᴰ, Perm, Permᴰ, Pairwise, mem-cons_self, forall_mem-cons}
use mathlib.Core.List.Pairwise
use mathlib.Core.List.Perm
use nestjs_template.Common.{ℕ, suc, ◌≡◌, refl, ap, ◌∙◌, true, Option, List, [], ◌∷◌, length}
use nestjs_template.Base.Listing.{Sorting}

module _ {T : Type 0} where
  pub length-Perm : {l r : List T} → Permᴰ l r → length l ≡ length r
  length-Perm Permᴰ.nil = refl
  length-Perm (Permᴰ.cons e p) = ap suc (length-Perm p)
  length-Perm (Permᴰ.swap e f) = refl
  length-Perm (Permᴰ.trans p q) = length-Perm p ∙ length-Perm q

  mem-Perm : {l r : List T} {x : T} → Permᴰ l r → Memᴰ x l → Memᴰ x r
  mem-Perm Permᴰ.nil m = m
  mem-Perm (Permᴰ.cons e p) (Memᴰ.head h) = Memᴰ.head (h ∙ e)
  mem-Perm (Permᴰ.cons e p) (Memᴰ.tail m) = Memᴰ.tail (mem-Perm p m)
  mem-Perm (Permᴰ.swap e f) (Memᴰ.head h) = Memᴰ.tail (Memᴰ.head (h ∙ e))
  mem-Perm (Permᴰ.swap e f) (Memᴰ.tail (Memᴰ.head h)) = Memᴰ.head (h ∙ f)
  mem-Perm (Permᴰ.swap e f) (Memᴰ.tail (Memᴰ.tail m)) = Memᴰ.tail (Memᴰ.tail m)
  mem-Perm (Permᴰ.trans p q) m = mem-Perm q (mem-Perm p m)

module _ {T : Type 0} (sort : Sorting T) where
  -- No two of the rows tie.
  abbrev pub HasNoTies : List T → Type 0
  HasNoTies rows =
      (x y : T)
      → Memᴰ x rows
      → Memᴰ y rows
      → sort.before x y ≡ true
      → sort.before y x ≡ true
      → x ≡ y

  abbrev Sorted : List T → Type 0
  Sorted = Pairwise (λ x y. sort.before x y ≡ true)

  before_head :
      {x y : T} {l r : List T} → Sorted (x ∷ l) → Perm (y ∷ r) (x ∷ l) → sort.before x y ≡ true
  before_head {x} {y} (Pairwise.cons h _) p =
      (forall_mem-cons (λ z. Bool-set (sort.before x z) true)).1 (sort.reflexive x, h) y
        ((Perm.mem_iff p).0 mem-cons_self)

  Sorted-eq :
      {rows : List T}
      → HasNoTies rows
      → (l r : List T) → Sorted l
      → Sorted r
      → Perm l r
      → ((x : T) → Memᴰ x l → Memᴰ x rows)
      → ((x : T) → Memᴰ x r → Memᴰ x rows)
      → l ≡ r
  Sorted-eq unique [] r _ _ p _ _ = Perm.nil-eq p
  Sorted-eq unique (x ∷ l) [] _ _ p _ _ = Perm.eq-nil p
  Sorted-eq unique (x ∷ l) (y ∷ r) sl sr p inl_ inr_ =
      let heads =
        unique x y (inl_ x (Memᴰ.head refl)) (inr_ y (Memᴰ.head refl))
          (before_head sl (Perm.symm p)) (before_head sr p) in
      let tails = Perm.cons_inv (Perm.trans p (Perm.symm (Perm.cons' heads Perm.rfl))) in
      ap₂ ◌∷◌ heads (
        Sorted-eq unique l r (Pairwise.of_cons sl) (Pairwise.of_cons sr) tails
          (λ z m. inl_ z (Memᴰ.tail m)) (λ z m. inr_ z (Memᴰ.tail m)))

  -- Rows without ties come in one order, whatever part of them a query asks for.
  pub order_same :
      (rows : List T) (p q : Option (ℕ × ℕ))
      → HasNoTies rows
      → sort.order p rows ≡ sort.order q rows
  order_same rows p q unique =
      Sorted-eq unique (sort.order p rows) (sort.order q rows) (sort.sorts p rows)
        (sort.sorts q rows)
        (Perm.trans ∣ sort.permutes p rows ∣₁ (Perm.symm ∣ sort.permutes q rows ∣₁))
        (λ x m. mem-Perm (sort.permutes p rows) m) (λ x m. mem-Perm (sort.permutes q rows) m)
