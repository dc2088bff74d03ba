-- ===== src/Hash/RoundTrip.antt =====
-- A created hash verifies the password that it was made of, and no other whose derived key differs.
use Prim.Native.Char.{code}
use Prim.Native.String
use Prim.Native.String.{String}
use text.Mathlib.TextLemmas.{nil-append, cons-append}
use nestjs_template.Common.{◌≡◌, refl, ◌≢◌, ◌↔◌, true, none, some, arith, eq_iff}
use nestjs_template.Hash.{split_last, create_hash, verify}

-- No colon in a text; a hexadecimal text has none.
abbrev pub NoColon : String → Type 0
NoColon String.[] = Unit
NoColon (String.◌∷◌ c s) = (code c ≢ b':') × NoColon s

split_last-none : (s : String) → NoColon s → split_last s ≡ none
unfolding split_last
split_last-none String.[] h = refl
split_last-none (String.◌∷◌ c s) (p, h) = ground (arith, split_last-none s h)

split_last-colon : (s : String) → NoColon s → split_last (String.◌++◌ ":" s) ≡ some ("", s)
unfolding split_last
split_last-colon s h = rw cons-append (rw nil-append (ground (arith, split_last-none s h)))

pub split_last-join :
    (t s : String) → NoColon s → split_last (String.◌++◌ t (String.◌++◌ ":" s)) ≡ some (t, s)
unfolding split_last
split_last-join String.[] s h = rw nil-append (split_last-colon s h)
split_last-join (String.◌∷◌ c t) s h = rw cons-append (ground (arith, split_last-join t s h))

module _ (scrypt : String → String → String) where
  -- `verify` accepts a password for a created hash exactly when it derives the same key under the
  -- hash's salt, where the salt holds no colon and a derived key is not empty.
  pub verify-create_hash :
      (salt password supplied : String)
      → NoColon salt
      → scrypt password salt ≢ ""
      → (verify scrypt (create_hash scrypt salt password) supplied ≡ true)
        ↔ (scrypt supplied salt ≡ scrypt password salt)
  unfolding create_hash verify
  verify-create_hash salt password supplied h p = ground (
    arith,
    split_last-join (scrypt password salt) salt h,
    eq_iff (scrypt password salt) "",
    eq_iff (scrypt supplied salt) (scrypt password salt),
  )
