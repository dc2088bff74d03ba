-- ===== src/Auth/Refresh/Theft.antt =====
-- Refresh tokens that are forged, or used after they were replaced.
use nestjs_template.Common.{
  ℕ, ◌≤◌, ◌≡◌, refl, true, false, ◌&&◌, none, some, String, List, [], ◌∷◌, find, select,
  update_where, All, truthy, truthy_option, truthy_number, err, arith, Option-cases, inl, inr,
  Failure, http, invalid_refresh_token, ==_refl, ===_refl, map, Bool, not, ◌==◌, ◌===◌,
}
use nestjs_template.Redis.{
  RedisServer, RedisLaws, blacklist, exists, session_key, of_family, del_all,
}
use nestjs_template.Redis.Bulk.{get-del_all-none, get-del_all-Has}
use nestjs_template.Hash.{verify}
use nestjs_template.Jwt
use nestjs_template.State.{
  World, Env, Request, User, RefreshToken, LoginHistory, JwtPayload, valid, malformed,
  theft_detected,
}
use nestjs_template.Users.{by_id}
use nestjs_template.Auth.History.{closes, close_login}
use nestjs_template.Auth.Tokens.{
  first_verified, is_open, of_user, same_family, revocable, mark_revoked,
}
use nestjs_template.Auth.Refresh.{
  reject_unverified, verified_payload, report_theft, check_refresh, refresh_tokens,
}

-- The logins of a session, and a login as a logout at this time leaves it.
abbrev pub is_login_of : ℕ → String → LoginHistory → Bool
is_login_of u s h = h.user_id == u && h.session_id === s

abbrev pub logged_out : ℕ → LoginHistory → LoginHistory
logged_out now h = elim h.logged_out_at [
  | none ↦ record h { logged_out_at = some now }
  | some t ↦ h
]

module _ {r : RedisServer} (env : Env) (req : Request) (token : String) (w : World r) where
  refresh_tokens-error :
      (e : Failure) (w' : World r)
      → check_refresh env req token w ≡ (err e, w')
      → refresh_tokens env req token w ≡ (err e, w')
  unfolding refresh_tokens
  refresh_tokens-error e w' h = ground arith

  -- The state after a token was refused for its signature.
  abbrev closed_by : JwtPayload → World r
  closed_by p = record w {
    login_histories =
        update_where (closes p.sub p.session_id) (close_login w.now) w.login_histories;
  }

  check_refresh-forged :
      (p : JwtPayload)
      → truthy token ≡ true
      → Jwt.verify_refresh_token env w.now token ≡ malformed
      → env.decode token ≡ some p
      → truthy_number p.sub ≡ true
      → truthy_option p.session_id ≡ true
      → check_refresh env req token w ≡ (err (http 401 invalid_refresh_token), closed_by p)
  unfolding check_refresh verified_payload reject_unverified
  check_refresh-forged p a b c d e = ground arith

  named_closed :
      (u : ℕ) (s : String) (hs : List LoginHistory)
      → truthy s ≡ true
      → select (is_login_of u s) (update_where (closes u (some s)) (close_login w.now) hs)
        ≡ map (logged_out w.now) (select (is_login_of u s) hs)
  named_closed u s [] named = refl
  named_closed u s (h ∷ hs) named = ground (arith, named_closed u s hs named)

  others_kept :
      (u : ℕ) (s : String) (hs : List LoginHistory)
      → truthy s ≡ true
      → select
          (λ h. not (is_login_of u s h))
          (update_where (closes u (some s)) (close_login w.now) hs)
        ≡ select (λ h. not (is_login_of u s h)) hs
  others_kept u s [] named = refl
  others_kept u s (h ∷ hs) named = ground (arith, others_kept u s hs named)

  -- A token with a wrong signature is refused, yet whoever made it closes logins: those of the user
  -- and the session that its unverified payload names are logged out from now on, where they were
  -- not yet. All other logins are as they were, and so are the refresh tokens and Redis. The payload
  -- names a user and a session.
  pub refresh_forged :
      (p : JwtPayload) (s : String)
      → truthy token ≡ true
      → Jwt.verify_refresh_token env w.now token ≡ malformed
      → env.decode token ≡ some p
      → truthy_number p.sub ≡ true
      → p.session_id ≡ some s
      → truthy s ≡ true
      → let out = refresh_tokens env req token w in
        (out.0 ≡ err (http 401 invalid_refresh_token))
        × (select (is_login_of p.sub s) out.1.login_histories
            ≡ map (logged_out w.now) (select (is_login_of p.sub s) w.login_histories))
        × (select (λ h. not (is_login_of p.sub s h)) out.1.login_histories
            ≡ select (λ h. not (is_login_of p.sub s h)) w.login_histories)
        × (out.1.refresh_tokens ≡ w.refresh_tokens)
        × (out.1.redis ≡ w.redis)
  refresh_forged p s a b c d e f =
      rw
        (refresh_tokens-error (http 401 invalid_refresh_token) (closed_by p)
          (check_refresh-forged p a b c d (rw e f)))
        (rw e (
          refl,
          named_closed p.sub s w.login_histories f,
          others_kept p.sub s w.login_histories f,
          refl,
          refl,
        ))

  -- A signed token of an active account that is in the table no longer.
  pub record IsReplayed (p : JwtPayload) (user : User) (f : String) : Type 0 where
    pub given : truthy token ≡ true
    pub signed : Jwt.verify_refresh_token env w.now token ≡ valid p
    pub free : exists r w.now (blacklist token) w.redis ≡ false
    pub known : find (by_id p.sub) w.users ≡ some user
    pub present : user.is_deleted ≡ false
    pub active : user.is_active ≡ true
    pub unknown :
        first_verified
          (verify env.scrypt)
          token
          (select (λ t. of_user p.sub t && is_open t) w.refresh_tokens)
        ≡ none
    pub family : p.family_id ≡ some f
    pub named : truthy f ≡ true

  abbrev revoked_by : JwtPayload → String → World r
  revoked_by p f = record w {
    refresh_tokens =
        update_where (revocable (some p.sub) (some f)) (mark_revoked w.now theft_detected)
          w.refresh_tokens;
    redis = del_all r (r.scan w.now (of_family p.sub f) w.redis) w.redis;
  }

  report_theft_eq :
      (p : JwtPayload) (f : String)
      → p.family_id ≡ some f
      → truthy f ≡ true
      → report_theft env req p w ≡ (err (http 401 invalid_refresh_token), revoked_by p f)
  unfolding report_theft
  report_theft_eq p f a b = rw (a, b) refl

  check_refresh-replayed :
      (p : JwtPayload) (user : User) (f : String)
      → IsReplayed p user f
      → check_refresh env req token w ≡ (err (http 401 invalid_refresh_token), revoked_by p f)
  unfolding check_refresh verified_payload
  check_refresh-replayed p user f h = ground (
    arith,
    h.given,
    h.signed,
    h.free,
    h.known,
    h.present,
    h.active,
    h.unknown,
    report_theft_eq p f h.family h.named,
  )

  -- A key that is there at `t` was there before, so the scan found it.
  session_gone :
      (laws : RedisLaws r) (u t : ℕ) (f s : String)
      → w.now ≤ t
      → r.get t (session_key u f s) (del_all r (r.scan w.now (of_family u f) w.redis) w.redis)
        ≡ none
  session_gone laws u t f s le = elim (Option-cases (r.get t (session_key u f s) w.redis)) [
    | inl e ↦
        get-del_all-none laws t (session_key u f s) (r.scan w.now (of_family u f) w.redis) w.redis e
    | inr (v, e) ↦ get-del_all-Has laws t w.redis (
        laws.scan_complete w.now (of_family u f) (session_key u f s) v w.redis
          (ground (arith, ==_refl u, ===_refl f))
          (laws.get_persist t w.now (session_key u f s) v w.redis le e))
  ]

  family_revoked :
      (u : ℕ) (f : String) (ts : List RefreshToken)
      → truthy f ≡ true
      → All
          (λ x. x.user_id ≡ u → same_family x.family_id f ≡ true → is_open x ≡ false)
          (update_where (revocable (some u) (some f)) (mark_revoked w.now theft_detected) ts)
  family_revoked u f [] h = tt
  family_revoked u f (x ∷ ts) h = ground (arith, family_revoked u f ts h)

  -- A signed and unbanned token of an active account that is in the table no longer is refused as
  -- invalid, and its device is closed: no session of it is left in Redis from then on, and every
  -- refresh token of it is revoked.
  pub refresh_replayed :
      (laws : RedisLaws r) (p : JwtPayload) (user : User) (f : String)
      → IsReplayed p user f
      → let out = refresh_tokens env req token w in
        (out.0 ≡ err (http 401 invalid_refresh_token))
        × ((t : ℕ) (s : String) → w.now ≤ t → r.get t (session_key p.sub f s) out.1.redis ≡ none)
        × All
            (λ x. x.user_id ≡ p.sub → same_family x.family_id f ≡ true → is_open x ≡ false)
            out.1.refresh_tokens
  refresh_replayed laws p user f h =
      rw
        (refresh_tokens-error (http 401 invalid_refresh_token) (revoked_by p f)
          (check_refresh-replayed p user f h))
        (
          refl,
          (λ t s le. session_gone laws p.sub t f s le),
          family_revoked p.sub f w.refresh_tokens h.named,
        )
