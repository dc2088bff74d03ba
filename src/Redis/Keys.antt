-- ===== src/Redis/Keys.antt =====
-- Keys, patterns and values that the modelled code keeps in Redis.
use nestjs_template.Common.{
  ℕ, ◌≡◌, refl, ◌↔◌, Bool, true, false, ◌&&◌, Option, none, some, String, arith, eq_iff, ◌==◌,
  ◌===◌,
}

-- src/modules/auth/enums/token-type.enum.ts
pub data TokenType : Type 0 where
  verify_email forgot_password : TokenType

abbrev pub same_type : TokenType → TokenType → Bool
same_type TokenType.verify_email TokenType.verify_email = true
same_type TokenType.forgot_password TokenType.forgot_password = true
same_type _ _ = false

-- `auth:<user>:<family>:<session>`, `blacklist:<token>`, `verification-token:<type>:<user>`,
-- `rl:<action>:<identifier>`
pub data RedisKey : Type 0 where
  session_key : ℕ → String → String → RedisKey
  blacklist : String → RedisKey
  verification_token : TokenType → ℕ → RedisKey
  rate_limit : String → String → RedisKey

abbrev pub same_key : RedisKey → RedisKey → Bool
same_key (session_key u f s) (session_key u' f' s') = u == u' && (f === f' && s === s')
same_key (blacklist t) (blacklist t') = t === t'
same_key (verification_token k u) (verification_token k' u') = same_type k k' && u == u'
same_key (rate_limit a i) (rate_limit a' i') = a === a' && i === i'
same_key _ _ = false

-- `auth:<user>:*`, `auth:<user>:<family>:*`, `auth:<user>:*:<session>`
pub data Pattern : Type 0 where
  of_user : ℕ → Pattern
  of_family : ℕ → String → Pattern
  of_session : ℕ → String → Pattern

abbrev pub matches : (String → String → Bool) → Pattern → RedisKey → Bool
matches glob (of_user u) (session_key u' f s) = u == u'
matches glob (of_family u f) (session_key u' f' s) = u == u' && f === f'
matches glob (of_session u p) (session_key u' f s) = u == u' && glob p s
matches glob _ _ = false

-- The hash of a session; `ip` and `user_agent` are kept as texts.
pub record SessionHash : Type 0 where
  pub access_token : String
  pub refresh_token : String
  pub ip : String
  pub user_agent : String
  pub created_at : ℕ

-- src/modules/auth/providers/interfaces/verification-token-record.interface.ts
pub record VerificationTokenRecord : Type 0 where
  pub token : String
  pub email : String
  pub ip : String

-- `marker` is the `'1'` of a blacklist entry.
pub data Value : Type 0 where
  marker : Value
  verification : VerificationTokenRecord → Value
  session : SessionHash → Value
  counter : ℕ → Value

abbrev pub session_of : Option Value → Option SessionHash
session_of (some (session h)) = some h
session_of _ = none

abbrev pub verification_of : Option Value → Option VerificationTokenRecord
verification_of (some (verification v)) = some v
verification_of _ = none

abbrev pub counter_of : Option Value → ℕ
counter_of (some (counter n)) = n
counter_of _ = 0

pub same_key_iff : (k j : RedisKey) → (same_key k j ≡ true) ↔ (k ≡ j)
same_key_iff (session_key u f s) (session_key u' f' s') = ground (arith, eq_iff f f', eq_iff s s')
same_key_iff (blacklist t) (blacklist t') = ground (arith, eq_iff t t')
same_key_iff (verification_token TokenType.verify_email u)
      (verification_token TokenType.verify_email u') =
    ground arith
same_key_iff (verification_token TokenType.forgot_password u)
      (verification_token TokenType.forgot_password u') =
    ground arith
same_key_iff (rate_limit a i) (rate_limit a' i') = ground (arith, eq_iff a a', eq_iff i i')
same_key_iff _ _ = ground arith

pub same_key_refl : (k : RedisKey) → same_key k k ≡ true
same_key_refl k = (same_key_iff k k).1 refl
