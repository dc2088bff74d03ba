-- ===== src/Hash.antt =====
-- Password hashes and random tokens: src/shared/hash/hash.service.ts. A stored hash is the text
-- `derived:salt`. `scrypt` of Node's crypto module is a parameter; `randomBytes` is the
-- `random` of the section, which a caller hands over.
pub mod RoundTrip
use Prim.Native.Char.{Char, code}
use Prim.Native.String
use Prim.Native.String.{String}
use nestjs_template.Common.{ℕ, ◌==◌, ◌===◌, if◌then◌else◌, Bool, false, Option, none, some}

-- `stored.lastIndexOf(':')` with the two `substring` calls: the texts before and after the last
-- colon.
unfoldable pub split_last : String → Option (String × String)
split_last String.[] = none
split_last (String.◌∷◌ c s) = elim (split_last s) [
  | some (before, after) ↦ some (String.◌∷◌ c before, after)
  | none ↦ if code c == b':' then some ("", s) else none
]

module _ (scrypt : String → String → String) where
  -- `salt` is the drawn value of `randomBytes(16).toString('hex')`.
  unfoldable pub create_hash : String → String → String
  create_hash salt password = String.◌++◌ (scrypt password salt) (String.◌++◌ ":" salt)

  -- `idx <= 0` is no colon, or a colon in front. The lengths are compared first; equal lengths
  -- and `timingSafeEqual` are equality of texts.
  unfoldable pub verify : String → String → Bool
  unfolding split_last
  verify stored supplied = elim (split_last stored) [
    | none ↦ false
    | some (hashed, salt) ↦ if hashed === "" then false else scrypt supplied salt === hashed
  ]
