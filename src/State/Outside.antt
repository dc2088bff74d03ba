-- ===== src/State/Outside.antt =====
-- What the code is given from outside: the crypto and JWT libraries, the clock's configuration, the
-- HTTP request. Nothing here has a definition; the laws that a theorem needs are its hypotheses.
use nestjs_template.Common.{ℕ, String, Bool, Option, List}

-- src/modules/auth/interfaces/jwt-payload.interface.ts
pub record JwtPayload : Type 0 where
  pub sub : ℕ
  pub name : String
  pub email : String
  pub role_id : Option ℕ
  pub role_key : Option String
  pub permissions : Option (List String)
  pub family_id : Option String
  pub session_id : Option String
  pub first_issued_at : Option ℕ
  pub remember_me : Option Bool

-- src/modules/auth/interfaces/user-payload.interface.ts
pub record UserPayload : Type 0 where
  pub id : ℕ
  pub name : String
  pub email : String
  pub role_id : Option ℕ
  pub role_key : Option String
  pub permissions : Option (List String)
  pub family_id : Option String
  pub session_id : Option String

-- The two signing secrets of the configuration.
pub data Secret : Type 0 where
  access refresh : Secret

-- What the JWT library's `verify` answers or throws.
pub data Verified : Type 0 where
  valid : JwtPayload → Verified
  expired : Verified
  malformed : Verified

-- The parts of an Express request that the code reads.
pub record Request : Type 0 where
  pub ip : Option String
  pub remote_address : Option String
  pub user_agent : Option String

pub record Env : Type 0 where
  -- `scrypt password salt` in hexadecimal
  pub scrypt : String → String → String
  -- the n-th draw of `randomBytes(k).toString('hex')`
  pub random : ℕ → ℕ → String
  -- secret, lifetime in seconds, time of signing, payload
  pub sign : Secret → ℕ → ℕ → JwtPayload → String
  pub verify_jwt : Secret → ℕ → String → Verified
  pub decode : String → Option JwtPayload
  -- `Buffer.from(text)`
  pub utf8 : String → List ℕ
  pub geo : String → Option String
  -- SHA-1 in upper-case hexadecimal, and the answer of the breach service to a prefix
  pub sha1 : String → String
  pub pwned_range : String → Option String
  -- what the Google library answers to an id token, if it accepts it: e-mail, name, subject, picture
  pub google : String → Option (String × String × String × Option String)
  -- PostgreSQL's `ILIKE` (the pattern first) and `LOWER`
  pub ilike : String → String → Bool
  pub sql_lower : String → String
  pub hibp_enabled : Bool
  pub testing : Bool
  pub access_token_expired_in : ℕ
  pub refresh_token_expired_in : ℕ
  pub remember_me_refresh_token_expired_in : ℕ
  pub max_session_days : ℕ
  pub remember_me_max_session_days : ℕ
