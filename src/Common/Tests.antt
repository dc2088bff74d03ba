-- ===== src/Common/Tests.antt =====
-- Boolean tests on numbers and texts, JavaScript's truthiness, and the conditional.
use Prim.Native.Nat.{ℕ, ◌≤◌, ◌<◌, compare, Ordering}
use Prim.Native.String.{String}
use mathlib.Core.Path.{◌≡◌, refl, ap}
use mathlib.Core.Logic.{◌↔◌, ◌⊎◌, inl, inr}
use mathlib.Core.Bool.{Bool, true, false, not, ◌||◌}
use mathlib.Core.Option.{Option, none, some}
use native.Mathlib.Omega.{arith}
use text.Mathlib.Text.{◌==◌ as text_eq}
use text.Mathlib.TextEquality.{eq_iff}

abbrev pub ltb : ℕ → ℕ → Bool
ltb a b = elim (compare a b) [ Ordering.lt ↦ true | _ ↦ false ]

abbrev pub leb : ℕ → ℕ → Bool
leb a b = elim (compare a b) [ Ordering.gt ↦ false | _ ↦ true ]

infix 50 ◌==◌ ◌===◌
abbrev pub ◌==◌ : ℕ → ℕ → Bool
a == b = elim (compare a b) [ Ordering.eq ↦ true | _ ↦ false ]

-- Equality of texts.
abbrev pub ◌===◌ : String → String → Bool
s === t = text_eq s t

infix 1 if◌then◌else◌
abbrev pub if◌then◌else◌ {ℓ} : {A : Type ℓ} → Bool → A → A → A
if true then x else _ = x
if false then _ else y = y

-- A text is falsy exactly when it is empty, a number when it is zero.
abbrev pub truthy : String → Bool
truthy s = not (s === "")

abbrev pub truthy_number : ℕ → Bool
truthy_number n = not (n == 0)

-- An optional text: `undefined`, `null` and the empty text are falsy.
abbrev pub truthy_option : Option String → Bool
truthy_option none = false
truthy_option (some s) = truthy s

abbrev pub is_some {ℓ} : {A : Type ℓ} → Option A → Bool
is_some none = false
is_some (some _) = true

-- `a ?? b`
abbrev pub or_else {ℓ} : {A : Type ℓ} → Option A → A → A
or_else none b = b
or_else (some a) _ = a

pub ltb→lt : (a b : ℕ) → ltb a b ≡ true → a < b
ltb→lt a b h = ground arith

pub lt→ltb : (a b : ℕ) → a < b → ltb a b ≡ true
lt→ltb a b h = ground arith

pub le→ltb : (a b : ℕ) → b ≤ a → ltb a b ≡ false
le→ltb a b h = ground arith

pub leb→le : (a b : ℕ) → leb a b ≡ true → a ≤ b
leb→le a b h = ground arith

pub ==_iff : (a b : ℕ) → ((a == b) ≡ true) ↔ (a ≡ b)
==_iff a b = ground arith

pub ===_refl : (s : String) → (s === s) ≡ true
===_refl s = (eq_iff s s).1 refl

pub ==_refl : (n : ℕ) → (n == n) ≡ true
==_refl n = ground arith

pub ruleset tests = (arith, ltb→lt, lt→ltb, leb→le)

pub Bool-cases : (b : Bool) → (b ≡ true) ⊎ (b ≡ false)
Bool-cases true = inl refl
Bool-cases false = inr refl

pub Option-cases {ℓ} : {A : Type ℓ} (o : Option A) → (o ≡ none) ⊎ ((a : A) × (o ≡ some a))
Option-cases none = inl refl
Option-cases (some a) = inr (a, refl)

-- A field that is `undefined` is not merged.
abbrev pub merged {ℓ} : {A : Type ℓ} → Option A → Option A → Option A
merged none old = old
merged (some a) old = some a

pub if-true {ℓ} : {A : Type ℓ} (x y : A) (b : Bool) → b ≡ true → (if b then x else y) ≡ x
if-true x y b h = ap (λ c. if c then x else y) h

pub if-false {ℓ} : {A : Type ℓ} (x y : A) (b : Bool) → b ≡ false → (if b then x else y) ≡ y
if-false x y b h = ap (λ c. if c then x else y) h

pub or_true : (b : Bool) → (b || true) ≡ true
or_true true = refl
or_true false = refl

pub some-inverse : {A : Type 0} {a b : A} → some a ≡ some b → a ≡ b
some-inverse {a} e = ap (λ o. elim o [ none ↦ a | some c ↦ c ]) e
