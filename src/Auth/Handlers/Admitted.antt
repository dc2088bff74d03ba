-- ===== src/Auth/Handlers/Admitted.antt =====
-- The cookie of a sign-in at the guard of a later request.
use nestjs_template.Common.{
  ℕ, String, ◌≤◌, ◌≡◌, refl, ap, ◌∙◌, Bool, true, false, none, some, find, ok, bind-ok, ◌>>◌, arith,
  truthy,
}
use nestjs_template.Redis.{RedisServer, RedisLaws, blacklist, exists}
use nestjs_template.State.{World, Env, Request, User, JwtPayload, valid}
use nestjs_template.Users.{by_id}
use nestjs_template.Jwt.{verify_access_token}
use nestjs_template.Cookies.{Attributes, set_auth, access_cookie, cookie_value}
use nestjs_template.Guards.{
  Call, cookie_token, cookie_named, user_of, extract_token, validate_token, auth_guard,
}
use nestjs_template.Auth.Signin.{SigninDto, Tokens, signin}
use nestjs_template.Auth.Signin.Credentials.{IsEntitled}
use nestjs_template.Auth.Signin.Success.{tokens, signin-IsSignedIn}
use nestjs_template.Auth.Handlers.{Exchange, in_world, on_cookies, reply, handle_signin}
use nestjs_template.Response.Errors.{ok_}

cookie_token-extract_token :
    (c : Call) (token : String)
    → cookie_token c ≡ some token
    → truthy token ≡ true
    → extract_token c ≡ some token
unfolding extract_token
cookie_token-extract_token c token presented some_text = ground (arith, presented, some_text)

module _ {r : RedisServer} (env : Env) (w : World r) (c : Call) (token : String) where
  validate_token-valid :
      (p : JwtPayload)
      → extract_token c ≡ some token
      → truthy token ≡ true
      → exists r w.now (blacklist token) w.redis ≡ false
      → verify_access_token env w.now token ≡ valid p
      → validate_token env w c ≡ ok (user_of p)
  unfolding validate_token
  validate_token-valid p presented some_text free accepted =
      ground (arith, presented, some_text, free, accepted)

  -- The guard of a route without metadata.
  auth_guard-validate_token :
      (p : JwtPayload)
      → c.auth_types ≡ none
      → validate_token env w c ≡ ok (user_of p)
      → auth_guard env w c ≡ ok (some (user_of p))
  unfolding auth_guard
  auth_guard-validate_token p bare h = ground (arith, bare, h)

module _ {r : RedisServer} (env : Env) (production : Bool) (req : Request) (dto : SigninDto)
    (x : Exchange r) (user : User) where
  handle_signin-ok :
      (t : Tokens) (v : World r)
      → signin env req dto x.world ≡ (ok (user, t), v)
      → (handle_signin env production req dto x).1.cookies
        ≡ set_auth env production t.access_token t.refresh_token x.cookies
  unfolding handle_signin
  handle_signin-ok t v e =
      let entered : in_world (signin env req dto) x ≡ (ok (user, t), record x { world = v }) =
        ap (λ y. (y.0, record x { world = y.1 })) e in
      ap (λ y. y.1.cookies)
        (bind-ok (in_world (signin env req dto))
          (λ result. do
            on_cookies (set_auth env production result.1.access_token result.1.refresh_token)
            reply ok_ "signin" result)
          entered)

  cookie-handle_signin :
      (t : Tokens)
      → (signin env req dto x.world).0 ≡ ok (user, t)
      → cookie_value (access_cookie production) (handle_signin env production req dto x).1.cookies
        ≡ some t.access_token
  unfolding cookie_value set_auth
  cookie-handle_signin t e = ap (cookie_value (access_cookie production)) (
      handle_signin-ok t (signin env req dto x.world).1
        (ap (λ y. (y, (signin env req dto x.world).1)) e))

  -- The cookie that the sign-in of an entitled account sets signs the user in: a request that
  -- presents, by their names, the cookies for the path `/` as the sign-in left them passes the
  -- authentication guard of a route without metadata, as the user of the token's payload, at any
  -- later time at which the JWT library takes the token and the token is not banned. The account's
  -- id is its own, and the token is not empty.
  pub auth_guard-handle_signin :
      (laws : RedisLaws r) (t : ℕ) (p : JwtPayload) (c : Call)
      → IsEntitled env dto x.world user
      → find (by_id user.id) x.world.users ≡ some user
      → x.world.now ≤ t
      → truthy (tokens env req dto x.world user).access_token ≡ true
      → verify_access_token env t (tokens env req dto x.world user).access_token ≡ valid p
      → exists r t
          (blacklist (tokens env req dto x.world user).access_token)
          (handle_signin env production req dto x).1.world.redis
        ≡ false
      → c.auth_types ≡ none
      → ((a : Attributes)
          → a.path ≡ "/"
          → cookie_named a.name c.cookies
            ≡ cookie_value a (handle_signin env production req dto x).1.cookies)
      → auth_guard env (record (handle_signin env production req dto x).1.world { now = t }) c
        ≡ ok (some (user_of p))
  auth_guard-handle_signin laws t p c entitled own later some_text accepted free bare presented =
      let new = tokens env req dto x.world user in
      let signed = (signin-IsSignedIn env req dto x.world user laws t entitled own later).0 in
      let w = record (handle_signin env production req dto x).1.world { now = t } in
      let cookie : cookie_token c ≡ some new.access_token =
        presented (access_cookie production) refl ∙ cookie-handle_signin new signed in
      auth_guard-validate_token env w c new.access_token p bare (
        validate_token-valid env w c new.access_token p
          (cookie_token-extract_token c new.access_token cookie some_text) some_text free accepted)
