-- ===== src/Auth/Verification.antt =====
-- Verification codes and the flows that use them: create-token, verify-token, verify-email,
-- resend-verification and forgot-password under src/modules/auth/providers.
pub mod SingleUse
use nestjs_template.Common.{
  ℕ, ◌*◌, String, Bool, true, false, not, ◌&&◌, ◌||◌, Option, none, some, List, ◌===◌,
  if◌then◌else◌, Action, ok, pure, gets, when, throw_if, ◌>>=◌, ◌>>◌, http, user_not_found,
  user_already_verified, invalid_token,
}
use nestjs_template.Redis.{
  RedisServer, TokenType, verification_token, same_type, VerificationTokenRecord, Value,
  verification_of, set,
}
use nestjs_template.State.{
  World, Env, Request, User, log_user, send_email, generate_token, on_redis, verify_email_failed,
  verify_email_success, resend_verification_success, forgot_password_success,
  resend_verification_mail, forgot_password_mail,
}
use nestjs_template.State.Tables.{users}
use nestjs_template.Client.{client_ip}
use nestjs_template.Base.Repository.{find_one}
use nestjs_template.Base.Providers.{find_one_or_throw}
use nestjs_template.Users.{update_user, by_id, by_email}

-- EXPIRED_AFTER_MINUTES * 60
abbrev pub token_ttl : ℕ
token_ttl = 4 * 60

-- `!record || record.token !== payload.token`
abbrev pub token_differs : Option VerificationTokenRecord → String → Bool
token_differs none token = true
token_differs (some v) token = not (v.token === token)

module _ {r : RedisServer} where
  -- `RedisService.getdel`
  abbrev pub take_verification : TokenType → ℕ → Action (World r) (Option VerificationTokenRecord)
  take_verification type id w = (
    ok (verification_of (r.get w.now (verification_token type id) w.redis)),
    record w { redis = r.remove (verification_token type id) w.redis },
  )

  -- `VerifyTokenProvider.execute`
  unfoldable pub verify_token : TokenType → String → String → Action (World r) User
  verify_token type email token = do
    user ← find_one_or_throw users user_not_found (by_email email)
    when (same_type type TokenType.verify_email && user.email_verified) (do
      log_user verify_email_failed (some user.id)
      throw_if true (http 409 user_already_verified))
    found ← take_verification type user.id
    throw_if (token_differs found token) (http 400 invalid_token)
    pure user

  -- `VerifyEmailProvider.execute`
  unfoldable pub verify_email : String → String → Action (World r) (Unit {0})
  verify_email email token = do
    user ← verify_token TokenType.verify_email email token
    now ← gets (λ w. w.now)
    update_user none (λ u. record u { email_verified = true; email_verified_at = some now })
        (by_id user.id)
    log_user verify_email_success (some user.id)

  module _ (env : Env) where
    -- `CreateTokenProvider.execute`: the code replaces an earlier one of the same kind.
    unfoldable pub create_token : Request → TokenType → User → Action (World r) String
    create_token req type user = do
      token ← generate_token env 32
      now ← gets (λ w. w.now)
      on_redis (
          set r now (verification_token type user.id)
            (Value.verification (record { token = token; email = user.email; ip = client_ip req }))
            token_ttl)
      pure token

    -- `ResendVerificationProvider.execute`: silent for an account that is not eligible.
    unfoldable pub resend_verification : Request → String → Action (World r) (Unit {0})
    resend_verification req email = do
      found ← find_one users (by_email email)
      elim found [
        | none ↦ pure tt
        | some user ↦ if user.is_deleted || user.email_verified then pure tt else do
          token ← create_token req TokenType.verify_email user
          send_email env (resend_verification_mail user.email token)
          log_user resend_verification_success (some user.id)
      ]

    -- `ForgotPasswordProvider.execute`
    unfoldable pub forgot_password : Request → String → Action (World r) (Unit {0})
    forgot_password req email = do
      found ← find_one users (by_email email)
      elim found [
        | none ↦ pure tt
        | some user ↦
            if user.is_deleted || not user.is_active || not user.email_verified then pure tt else do
              token ← create_token req TokenType.forgot_password user
              send_email env (forgot_password_mail user.email token)
              log_user forgot_password_success (some user.id)
      ]
