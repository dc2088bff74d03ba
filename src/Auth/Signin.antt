-- ===== src/Auth/Signin.antt =====
-- src/modules/auth/providers/signin.provider.ts and google-signin.provider.ts: the guards, the count
-- of failed attempts, and the new session.
pub mod Credentials
pub mod Lockout
pub mod Opened
pub mod Success
use nestjs_template.Common.{
  ℕ, ◌+◌, ◌*◌, String, Bool, true, false, not, ◌&&◌, ◌===◌, Option, none, some, or_else, List, ltb,
  leb, truthy, truthy_option, is_some, if◌then◌else◌, Action, pure, throw, gets, when, throw_if,
  ◌>>=◌, ◌>>◌, http, after_seconds, invalid_credentials, user_archive, user_inactive,
  account_locked, user_not_verified, invalid_google_token, role_not_found,
}
use nestjs_template.Redis.{RedisServer, RedisKey, session_key, of_family, SessionHash, del_all}
use nestjs_template.Hash.{verify}
use nestjs_template.State.{
  World, Env, Request, User, JwtPayload, signin_replaced, log_user, on_redis, generate_token,
  signin_failed, signin_success, google_signin_failed, google_signin_success,
}
use nestjs_template.State.Tables.{users, roles}
use nestjs_template.Client.{client_ip, client_agent, device_fingerprint}
use nestjs_template.Jwt.{get_refresh_ttl, sign_access_token, sign_refresh_token}
use nestjs_template.Base.Repository.{find_one, create}
use nestjs_template.Base.Providers.{find_one_or_throw}
use nestjs_template.Users.{update_user, create_user, by_id, by_email}
use nestjs_template.Permissions.Lookup.{find_permission_keys}
use nestjs_template.Auth.Tokens.{
  revoke_refresh_tokens, create_refresh_token, cleanup_refresh_tokens,
}
use nestjs_template.Auth.History.{
  logout_by_family, notify_new_device, create_auth_history, AuthHistoryPayload,
}

-- MAX_LOGIN_FAILED_ATTEMPTS, and ACCOUNT_LOCKED_IN_MINUTES * 60_000
abbrev pub max_login_failed_attempts : ℕ
max_login_failed_attempts = 5

abbrev pub lock_period : ℕ
lock_period = 30 * 60000

-- DUMMY_PASSWORD_HASH: 128 times `a`, a colon, 16 times `b`.
abbrev pub dummy_password_hash : String
dummy_password_hash =
    "aaaaaaaaaaaaaaaaaaaaaaaaaaaaaaaaaaaaaaaaaaaaaaaaaaaaaaaaaaaaaaaaaaaaaaaaaaaaaaaaaaaaaaaaaaaaaaaaaaaaaaaaaaaaaaaaaaaaaaaaaaaaaaaa:bbbbbbbbbbbbbbbb"

-- `user?.password || DUMMY_PASSWORD_HASH`
unfoldable pub stored_password : Option User → String
stored_password none = dummy_password_hash
stored_password (some u) =
    if truthy_option u.password then or_else u.password "" else dummy_password_hash

-- `user.lockedUntil && user.lockedUntil > new Date()`
unfoldable pub is_locked : ℕ → User → Bool
is_locked now u = elim u.locked_until [ none ↦ false | some t ↦ ltb now t ]

-- What a wrong password does to the row.
abbrev pub failed_lock : ℕ → User → Option ℕ
failed_lock now u =
    if leb max_login_failed_attempts (u.failed_attempts + 1)
    then some (now + lock_period)
    else u.locked_until

unfoldable pub count_failure : ℕ → User → User → User
count_failure now seen u = record u {
  failed_attempts = seen.failed_attempts + 1;
  locked_until = failed_lock now seen;
}

abbrev pub clear_failures : User → User
clear_failures u = record u { failed_attempts = 0; locked_until = none }

pub record SigninDto : Type 0 where
  pub email : String
  pub password : String
  pub remember_me : Option Bool

pub record Tokens : Type 0 where
  pub access_token : String
  pub refresh_token : String

abbrev pub is_true : Option Bool → Bool
is_true none = false
is_true (some b) = b

abbrev pub signin_payload :
    Env → Request → User → List String → String → ℕ → Option Bool → JwtPayload
signin_payload env req user permissions session_id now remember_me = record {
  sub = user.id;
  name = user.name;
  email = user.email;
  role_id = some user.role_id;
  role_key = none;
  permissions = some permissions;
  family_id = some (device_fingerprint env req);
  session_id = some session_id;
  first_issued_at = some now;
  remember_me = remember_me;
}

abbrev pub store_session : (r : RedisServer) → ℕ → RedisKey → SessionHash → ℕ → r.Store → r.Store
store_session r now key h ttl d = r.expire now key ttl (r.hset now key h d)

module _ {r : RedisServer} (env : Env) (req : Request) where
  -- The failure branch: the count is stored before the error is thrown.
  unfoldable pub reject_password : User → Action (World r) (Unit {0})
  reject_password user = do
    now ← gets (λ w. w.now)
    update_user none (count_failure now user) (by_id user.id)
    log_user signin_failed (some user.id)
    throw_if true (http 401 invalid_credentials)

  -- The guards in the order of the source; the hash is verified before the first of them.
  unfoldable pub check_credentials : SigninDto → Action (World r) User
  check_credentials dto = do
    now ← gets (λ w. w.now)
    found ← find_one users (by_email dto.email)
    let is_match = verify env.scrypt (stored_password found) dto.password
    elim found [
      | none ↦ do throw (http 401 invalid_credentials)
      | some user ↦ do
        throw_if user.is_deleted (http 401 user_archive)
        throw_if (not user.is_active) (http 401 user_inactive)
        throw_if (is_locked now user) (http 401 account_locked)
        when (not is_match) (reject_password user)
        throw_if (not user.email_verified) (http 403 user_not_verified)
        pure user
    ]

  -- The stale session of the device is removed, its tokens are revoked, its logins closed.
  unfoldable pub replace_device_session : ℕ → Action (World r) (Unit {0})
  replace_device_session u = do
    let family = device_fingerprint env req
    stale ← gets (λ w. r.scan w.now (of_family u family) w.redis)
    on_redis (del_all r stale)
    revoke_refresh_tokens (some u) (some family) signin_replaced
    logout_by_family u family
    pure tt

  -- The tokens, their row, the notice, the Redis session and the login row. `remember_me` is what the
  -- payload carries, `expires_in` what the row of the refresh token is given.
  unfoldable pub open_session : User → String → Option Bool → Option ℕ → Action (World r) Tokens
  open_session user session_id remember_me expires_in = do
    let family = device_fingerprint env req
    let ttl = get_refresh_ttl env (is_true remember_me)
    now ← gets (λ w. w.now)
    permissions ← find_permission_keys (some user.role_id)
    let payload = signin_payload env req user permissions session_id now remember_me
    let access_token = sign_access_token env now payload
    let refresh_token = sign_refresh_token env now payload (is_true remember_me)
    create_refresh_token env req refresh_token user.id (some now) expires_in
    cleanup_refresh_tokens user.id
    notify_new_device env user.id family user.email
    on_redis (
        store_session r now (session_key user.id family session_id)
          (record {
            access_token = access_token;
            refresh_token = refresh_token;
            ip = client_ip req;
            user_agent = client_agent req;
            created_at = now;
          })
          ttl)
    create_auth_history env req (record {
      user_id = user.id;
      session_id = session_id;
      family_id = some family;
      logged_in_at = some now;
      expired_at = some (after_seconds now ttl);
    })
    pure (record { access_token = access_token; refresh_token = refresh_token })

  -- `SigninProvider.execute`
  unfoldable pub signin : SigninDto → Action (World r) (User × Tokens)
  signin dto = do
    user ← check_credentials dto
    update_user none clear_failures (by_id user.id)
    session_id ← generate_token env 8
    replace_device_session user.id
    let remember_me = is_true dto.remember_me
    tokens ←
        open_session user session_id (some remember_me) (some (get_refresh_ttl env remember_me))
    log_user signin_success (some user.id)
    pure (user, tokens)

  -- `GoogleSigninProvider.execute`, from the account on: one is made if there is none.
  unfoldable pub google_account : String × String × String × Option String → Action (World r) User
  google_account (email, name, google_id, picture) = do
    now ← gets (λ w. w.now)
    found ← find_one users (by_email email)
    elim found [
      | none ↦ do
        role ←
            find_one_or_throw (roles env) role_not_found
              (λ x. x.name === "User" && not x.is_deleted)
        create_user (record {
          id = 0;
          role_id = role.id;
          google_id = some google_id;
          email = email;
          password = none;
          name = name;
          avatar_url = picture;
          email_verified = true;
          email_verified_at = some now;
          failed_attempts = 0;
          locked_until = none;
          is_active = true;
          is_deleted = false;
          deleted_at = none;
          deleted_by = none;
        })
      | some user ↦ do
        throw_if user.is_deleted (http 401 user_archive)
        throw_if (not user.is_active) (http 401 user_inactive)
        when (not (truthy_option user.google_id)) (do
          update_user none (λ u. record u { google_id = some google_id }) (by_id user.id)
          pure tt)
        pure user
    ]

  unfoldable pub google_signin : String → Action (World r) (User × Tokens)
  google_signin id_token = elim (env.google id_token) [
    | none ↦ do log_user google_signin_failed none; throw (http 401 invalid_google_token)
    | some account ↦ do
      user ← google_account account
      session_id ← generate_token env 8
      replace_device_session user.id
      tokens ← open_session user session_id none none
      log_user google_signin_success (some user.id)
      pure (user, tokens)
  ]
