-- ===== src/Examples.antt =====
-- A concrete environment, accounts and a state for the examples of the theorems.
pub mod Credentials
pub mod Tokens
pub mod Access
pub mod Refresh
pub mod Users
pub mod Roles
pub mod Pages
pub mod Errors
pub mod Logs
pub mod Answers
pub mod Routes
use Prim.Native.Char.{Char, code}
use Prim.Native.String
use nestjs_template.Common.{ℕ, String, true, false, none, some, List, [], ◌∷◌, ◌===◌, if◌then◌else◌}
use nestjs_template.Redis.Memory.{memory}
use nestjs_template.State.{
  Env, World, Request, User, JwtPayload, UserPayload, valid, malformed, Role,
}
use nestjs_template.Auth.Signin.{SigninDto}

-- The bytes of an ASCII text.
unfoldable pub bytes : String → List ℕ
bytes String.[] = []
bytes (String.◌∷◌ c s) = code c ∷ bytes s

abbrev pub a_payload : JwtPayload
a_payload = record {
  sub = 7;
  name = "Ann";
  email = "ann@example.org";
  role_id = some 2;
  role_key = none;
  permissions = some ("users:read" ∷ []);
  family_id = some "family";
  session_id = some "session";
  first_issued_at = some 0;
  remember_me = some false;
}

abbrev pub an_env : Env
an_env = record {
  scrypt = λ password salt. String.◌++◌ password salt;
  random = λ n k. "0a1b";
  sign = λ s ttl now p. "signed";
  verify_jwt = λ s now token. if token === "signed" then valid a_payload else malformed;
  decode = λ token. none;
  utf8 = bytes;
  geo = λ ip. none;
  sha1 = λ text. "AAAAABBBBB";
  pwned_range = λ prefix. none;
  google = λ token. none;
  ilike = λ pattern text. pattern === text;
  sql_lower = λ text. text;
  hibp_enabled = true;
  testing = false;
  access_token_expired_in = 900;
  refresh_token_expired_in = 86400;
  remember_me_refresh_token_expired_in = 2592000;
  max_session_days = 30;
  remember_me_max_session_days = 90;
}

abbrev pub a_request : Request
a_request = record { ip = some "10.0.0.1"; remote_address = none; user_agent = some "curl/8" }

-- The password is `secret`, its salt `00`.
abbrev pub ann : User
ann = record {
  id = 7;
  role_id = 2;
  google_id = none;
  email = "ann@example.org";
  password = some "secret00:00";
  name = "Ann";
  avatar_url = none;
  email_verified = true;
  email_verified_at = some 5;
  failed_attempts = 0;
  locked_until = none;
  is_active = true;
  is_deleted = false;
  deleted_at = none;
  deleted_by = none;
}

abbrev pub bob : User
bob = record ann { id = 8; email = "bob@example.org"; email_verified = false; password = none }

abbrev pub a_world : World memory
a_world = record {
  now = 1000;
  draws = 0;
  next_id = 100;
  users = bob ∷ ann ∷ [];
  refresh_tokens = [];
  login_histories = [];
  password_histories = [];
  roles = [];
  permissions = [];
  role_permissions = [];
  redis = [];
  outbox = [];
  activity = [];
}

abbrev pub right_dto : SigninDto
right_dto = record { email = "ann@example.org"; password = "secret"; remember_me = none }

abbrev pub wrong_dto : SigninDto
wrong_dto = record { email = "ann@example.org"; password = "guess"; remember_me = none }

abbrev pub ann_payload : UserPayload
ann_payload = record {
  id = 7;
  name = "Ann";
  email = "ann@example.org";
  role_id = some 2;
  role_key = none;
  permissions = some ("users:read" ∷ []);
  family_id = some "family";
  session_id = some "session";
}
