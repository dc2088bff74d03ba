-- ===== src/Common/Members.antt =====
-- Lists of numbers as sets: `includes`, `new Set`, and what `filter` leaves of them.
use Prim.Native.Nat.{ℕ}
use mathlib.Core.Path.{◌≡◌, refl}
use mathlib.Core.Logic.{inl, inr}
use mathlib.Core.Bool.{Bool, true, not, ◌&&◌}
use mathlib.Core.List.{List, [], ◌∷◌}
use native.Mathlib.Omega.{arith}
use nestjs_template.Common.Tests.{◌==◌, Bool-cases, ==_iff, ==_refl}
use nestjs_template.Common.Lists.{any, select}

-- `list.includes(n)` and `set.has(n)`
abbrev pub member : List ℕ → ℕ → Bool
member ns n = any (λ k. k == n) ns

-- `[...new Set(ids)]`: each number at its first place.
unfoldable pub unique : List ℕ → List ℕ
unique [] = []
unique (n ∷ ns) = n ∷ select (λ k. not (k == n)) (unique ns)

abbrev pub all_different : List ℕ → Bool
all_different [] = true
all_different (n ∷ ns) = not (member ns n) && all_different ns

-- A test of the other number is a test of the same one.
==_test : (q : ℕ → Bool) (k n : ℕ) → (k == n && q k) ≡ (k == n && q n)
==_test q k n = elim (Bool-cases (k == n)) [
  | inl e ↦ rw ((==_iff k n).0 e) refl
  | inr e ↦ rw e refl
]

pub member-select :
    (q : ℕ → Bool) (ns : List ℕ) (n : ℕ) → member (select q ns) n ≡ (member ns n && q n)
member-select q [] n = refl
member-select q (k ∷ ns) n = ground (arith, ==_test q k n, member-select q ns n)

pub member-unique : (ns : List ℕ) (n : ℕ) → member (unique ns) n ≡ member ns n
unfolding unique
member-unique [] n = refl
member-unique (k ∷ ns) n =
    ground (arith, member-select (λ j. not (j == k)) (unique ns) n, member-unique ns n)

pub all_different-select :
    (q : ℕ → Bool) (ns : List ℕ) → all_different ns ≡ true → all_different (select q ns) ≡ true
all_different-select q [] h = refl
all_different-select q (n ∷ ns) h = ground (arith, member-select q ns n, all_different-select q ns)

pub all_different-unique : (ns : List ℕ) → all_different (unique ns) ≡ true
unfolding unique
all_different-unique [] = refl
all_different-unique (n ∷ ns) = ground (
  arith,
  member-select (λ k. not (k == n)) (unique ns) n,
  ==_refl n,
  all_different-select (λ k. not (k == n)) (unique ns) (all_different-unique ns),
)
