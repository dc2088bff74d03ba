-- ===== src/Auth/Handlers.antt =====
-- src/modules/auth/auth.controller.ts and auth.service.ts: each handler runs its provider, writes or
-- clears the cookies, and answers. The answer's envelope is that of Response.
pub mod Admitted
use nestjs_template.Common.{
  ℕ, String, Bool, Option, none, some, or_else, List, [], ◌∷◌, Result, ok, err, Action, pure,
  modify, ◌>>=◌, ◌>>◌,
}
use nestjs_template.Redis.{RedisServer}
use nestjs_template.State.{World, Env, Request, User, UserPayload}
use nestjs_template.Response.Errors.{SuccessMethod, ok_, created}
use nestjs_template.Cookies.{CookieCall, set_auth, clear_auth}
use nestjs_template.Auth.Signin.{SigninDto, Tokens, signin, google_signin}
use nestjs_template.Auth.Refresh.{refresh_tokens}
use nestjs_template.Auth.Account.{SignupDto, signup, change_password, reset_password}
use nestjs_template.Auth.Verification.{verify_email, resend_verification, forgot_password}
use nestjs_template.Auth.Sessions.{SessionInfo, LogoutType, list_sessions, revoke_session, logout}

-- The state behind a request and the cookies of its response.
pub record Exchange (r : RedisServer) : Type 0 where
  pub world : World r
  pub cookies : List CookieCall

-- The arguments of `successResponse`: its method, the key in the module `auth`, and the payload.
pub record Reply (A : Type 0) : Type 0 where
  pub method : SuccessMethod
  pub key : String
  pub payload : A

abbrev pub reply : {S A : Type 0} → SuccessMethod → String → A → Action S (Reply A)
reply method key payload = pure (record { method = method; key = key; payload = payload })

module _ {r : RedisServer} where
  abbrev pub in_world : {A : Type 0} → Action (World r) A → Action (Exchange r) A
  in_world m x = let (result, w) = m x.world in (result, record x { world = w })

  abbrev pub on_cookies : (List CookieCall → List CookieCall) → Action (Exchange r) (Unit {0})
  on_cookies f = modify (λ x. record x { cookies = f x.cookies })

module _ {r : RedisServer} (env : Env) (req : Request) where
  unfoldable pub handle_signup : SignupDto → Action (Exchange r) (Reply User)
  handle_signup dto = do result ← in_world (signup env req dto); reply created "signup" result

  unfoldable pub handle_verify_email : String → String → Action (Exchange r) (Reply (Unit {0}))
  handle_verify_email email token = do
    in_world (verify_email email token)
    reply ok_ "email-verified" tt

  unfoldable pub handle_resend_verification : String → Action (Exchange r) (Reply (Unit {0}))
  handle_resend_verification email = do
    in_world (resend_verification env req email)
    reply ok_ "verification-sent" tt

  unfoldable pub handle_forgot_password : String → Action (Exchange r) (Reply (Unit {0}))
  handle_forgot_password email = do
    in_world (forgot_password env req email)
    reply ok_ "forgot-password-token" tt

  unfoldable pub handle_reset_password :
      String → String → String → Action (Exchange r) (Reply (Unit {0}))
  handle_reset_password email token password = do
    in_world (reset_password env email token password)
    reply ok_ "password-reset" tt

  unfoldable pub handle_change_password :
      String → String → UserPayload → Action (Exchange r) (Reply (Unit {0}))
  handle_change_password old_password new_password user = do
    in_world (change_password env old_password new_password user)
    reply ok_ "change-password" tt

  unfoldable pub handle_list_sessions : UserPayload → Action (Exchange r) (Reply (List SessionInfo))
  handle_list_sessions user = do
    result ← in_world (list_sessions user)
    reply ok_ "list-sessions" result

  unfoldable pub handle_revoke_session :
      String → UserPayload → Action (Exchange r) (Reply (Unit {0}))
  handle_revoke_session session_id user = do
    in_world (revoke_session env user session_id)
    reply ok_ "session-revoked" tt

-- The handlers that touch the cookies.
module _ {r : RedisServer} (env : Env) (production : Bool) (req : Request) where
  unfoldable pub handle_signin : SigninDto → Action (Exchange r) (Reply (User × Tokens))
  handle_signin dto = do
    result ← in_world (signin env req dto)
    on_cookies (set_auth env production result.1.access_token result.1.refresh_token)
    reply ok_ "signin" result

  unfoldable pub handle_google_signin : String → Action (Exchange r) (Reply (User × Tokens))
  handle_google_signin id_token = do
    result ← in_world (google_signin env req id_token)
    on_cookies (set_auth env production result.1.access_token result.1.refresh_token)
    reply ok_ "signin" result

  -- `dto.refreshToken ?? cookieToken ?? ''`
  unfoldable pub handle_refresh_token :
      Option String → Option String → Action (Exchange r) (Reply Tokens)
  handle_refresh_token body_token cookie_token = do
    result ← in_world (refresh_tokens env req (or_else body_token (or_else cookie_token "")))
    on_cookies (set_auth env production result.access_token result.refresh_token)
    reply ok_ "refresh-token" result

  unfoldable pub handle_logout :
      LogoutType → UserPayload → Option String → Action (Exchange r) (Reply (Unit {0}))
  handle_logout type user cookie_token = do
    in_world (logout env user type cookie_token)
    on_cookies (clear_auth production)
    reply ok_ "logout" tt
