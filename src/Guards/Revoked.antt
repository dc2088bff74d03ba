-- ===== src/Guards/Revoked.antt =====
-- Access tokens after a logout from all devices.
use nestjs_template.Common.{
  ℕ, String, ◌≤◌, ◌<◌, ◌≡◌, refl, true, false, Option, some, or_else, err, http, unauthorized,
  arith, truthy, after_seconds, [], ◌∷◌,
}
use nestjs_template.Redis.{
  RedisServer, RedisLaws, session_key, blacklist, exists, SessionHash, hgetall,
}
use nestjs_template.State.{World, Env, UserPayload, wait_until}
use nestjs_template.Auth.Sessions.{LogoutType, logout}
use nestjs_template.Auth.Sessions.Everywhere.{logout-IsLoggedOut}
use nestjs_template.Guards.{
  Call, includes, public, optional, bearer, extract_token, validate_token, auth_guard, enter,
}

-- A call on a route that wants a bearer token, with this token.
pub record IsBearing (c : Call) (token : String) : Type 0 where
  pub presented : extract_token c ≡ some token
  pub closed : includes public c.auth_types ≡ false
  pub strict : includes optional c.auth_types ≡ false
  pub known : includes bearer (some (or_else c.auth_types (bearer ∷ []))) ≡ true

module _ {r : RedisServer} (env : Env) (c : Call) where
  enter-banned :
      (w : World r) (token : String)
      → IsBearing c token
      → truthy token ≡ true
      → exists r w.now (blacklist token) w.redis ≡ true
      → enter env w c ≡ err (http 401 unauthorized)
  unfolding enter auth_guard validate_token
  enter-banned w token h a banned =
      ground (arith, h.presented, h.closed, h.strict, h.known, a, banned)

  -- After a logout from all devices, and until the lifetimes of its tokens are over, a call that
  -- presents the access token of any session that the user had is refused as unauthorized.
  pub logout-enter :
      (laws : RedisLaws r) (w : World r) (user : UserPayload) (raw : Option String) (t : ℕ)
      → (f s : String) (h : SessionHash)
      → hgetall r w.now (session_key user.id f s) w.redis ≡ some h
      → truthy h.access_token ≡ true
      → IsBearing c h.access_token
      → w.now ≤ t
      → t < after_seconds w.now env.refresh_token_expired_in
      → t < after_seconds w.now env.access_token_expired_in
      → enter env (wait_until t (logout env user LogoutType.all raw w).1) c
        ≡ err (http 401 unauthorized)
  logout-enter laws w user raw t f s h e a b le fresh live =
      let (_, out) = logout-IsLoggedOut laws env user raw w t le fresh live in
      enter-banned (wait_until t (logout env user LogoutType.all raw w).1) h.access_token b a
        (rw (out.banned f s h e a) refl)
