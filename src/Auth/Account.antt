-- ===== src/Auth/Account.antt =====
-- src/modules/auth/providers/signup.provider.ts, change-password.provider.ts and
-- reset-password.provider.ts.
pub mod Replaced
use nestjs_template.Common.{
  ℕ, String, true, false, not, ◌&&◌, Option, none, some, or_else, truthy_option, ◌===◌, Action,
  pure, throw, gets, when, ◌>>=◌, ◌>>◌, http, email_exist, role_not_found, user_not_found,
  no_password_set, old_password_not_match, match_old_password,
}
use nestjs_template.Redis.{RedisServer, TokenType, of_user}
use nestjs_template.Hash.{verify}
use nestjs_template.State.{
  World, Env, Request, User, UserPayload, Reason, LogAction, log_user, send_email, on_redis,
  verify_email_mail, reset_password_mail, change_password_mail,
}
use nestjs_template.State.Tables.{users, roles}
use nestjs_template.Base.Repository.{find_one, exists}
use nestjs_template.Base.Providers.{find_one_or_throw}
use nestjs_template.Hibp.{check_password}
use nestjs_template.Users.{update_user, create_user, by_id, by_email}
use nestjs_template.Auth.Tokens.{revoke_refresh_tokens}
use nestjs_template.Auth.Passwords.{hash_password, check_password_history, save_password_history}
use nestjs_template.Auth.Verification.{verify_token, create_token}
use nestjs_template.Auth.Sessions.{drop_sessions}

pub record SignupDto : Type 0 where
  pub name : String
  pub email : String
  pub password : String

-- The row that a sign-up makes; its id is drawn by the table.
abbrev pub new_user : SignupDto → String → ℕ → User
new_user dto hash role = record {
  id = 0;
  role_id = role;
  google_id = none;
  email = dto.email;
  password = some hash;
  name = dto.name;
  avatar_url = none;
  email_verified = false;
  email_verified_at = none;
  failed_attempts = 0;
  locked_until = none;
  is_active = true;
  is_deleted = false;
  deleted_at = none;
  deleted_by = none;
}

module _ {r : RedisServer} (env : Env) where
  -- `SignupProvider.execute`
  unfoldable pub signup : Request → SignupDto → Action (World r) User
  signup req dto = do
    taken ← exists users (by_email dto.email)
    when taken (do log_user LogAction.signup_failed none; throw (http 409 email_exist))
    role ← find_one_or_throw (roles env) role_not_found (λ x. x.name === "User" && not x.is_deleted)
    check_password env dto.password
    hash ← hash_password env dto.password
    user ← create_user (new_user dto hash role.id)
    save_password_history user.id hash
    token ← create_token env req TokenType.verify_email user
    send_email env (verify_email_mail user.email token)
    log_user LogAction.signup_success (some user.id)
    pure user

  -- The common end of the two password changes: the new hash is stored, every refresh token of the
  -- user is revoked and every session dropped.
  unfoldable pub replace_password : ℕ → String → Reason → Action (World r) (Unit {0})
  replace_password u password reason = do
    hash ← hash_password env password
    update_user none (λ x. record x { password = some hash }) (by_id u)
    save_password_history u hash
    revoke_refresh_tokens (some u) none reason
    now ← gets (λ w. w.now)
    stale ← gets (λ w. r.scan w.now (of_user u) w.redis)
    on_redis (drop_sessions r env now stale)

  -- `ChangePasswordProvider.execute`
  unfoldable pub change_password : String → String → UserPayload → Action (World r) (Unit {0})
  change_password old_password new_password current = do
    user ← find_one_or_throw users user_not_found (by_id current.id)
    when (not (truthy_option user.password)) (do
      log_user LogAction.change_password_failed (some user.id)
      throw (http 403 no_password_set))
    when (not (verify env.scrypt (or_else user.password "") old_password)) (do
      log_user LogAction.change_password_failed (some user.id)
      throw (http 403 old_password_not_match))
    check_password_history env user.id new_password
    check_password env new_password
    replace_password user.id new_password Reason.password_changed
    send_email env (change_password_mail user.email)
    log_user LogAction.change_password_success (some user.id)

  -- The checks of `ResetPasswordProvider` before the code is consumed.
  unfoldable pub check_new_password : Option User → String → Action (World r) (Unit {0})
  check_new_password none password = check_password env password
  check_new_password (some user) password = do
    when (truthy_option user.password && verify env.scrypt (or_else user.password "") password) (do
      log_user LogAction.reset_password_failed (some user.id)
      throw (http 403 match_old_password))
    check_password_history env user.id password
    check_password env password

  -- `ResetPasswordProvider.execute`
  unfoldable pub reset_password : String → String → String → Action (World r) (Unit {0})
  reset_password email token password = do
    found ← find_one users (by_email email)
    check_new_password found password
    user ← verify_token TokenType.forgot_password email token
    replace_password user.id password Reason.password_reset
    send_email env (reset_password_mail user.email)
    log_user LogAction.reset_password_success (some user.id)
