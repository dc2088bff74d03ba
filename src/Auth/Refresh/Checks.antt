-- ===== src/Auth/Refresh/Checks.antt =====
-- What a refresh demands of the token that it is given.
use nestjs_template.Common.{
  ◌+◌, ◌≡◌, ◌≢◌, refl, true, false, ◌&&◌, Option, none, some, String, find, select, truthy, ltb,
  leb, ok, err, arith, Option-cases, inl, inr, http, Key, invalid_refresh_token,
  expired_refresh_token, ap, ◌↔◌,
}
use nestjs_template.Redis.{RedisServer, blacklist, exists}
use nestjs_template.Hash.{verify}
use nestjs_template.Jwt
use nestjs_template.State.{
  World, Env, Request, User, RefreshToken, JwtPayload, Verified, valid, expired, malformed,
}
use nestjs_template.Users.{by_id}
use nestjs_template.Auth.Tokens.{first_verified, is_open, of_user}
use nestjs_template.Auth.Signin.{is_true}
use nestjs_template.Auth.Refresh.{
  reject_unverified, verified_payload, report_theft, check_refresh, session_start, max_session,
}

module _ {r : RedisServer} (env : Env) (token : String) (w : World r) where
  -- What a refresh needs: a signed token that is not banned, of an account that is neither archived
  -- nor inactive, with an open row of that account whose hash it fits, in time.
  pub record IsRefreshable (p : JwtPayload) (user : User) (t : RefreshToken) : Type 0 where
    pub given : truthy token ≡ true
    pub signed : Jwt.verify_refresh_token env w.now token ≡ valid p
    pub free : exists r w.now (blacklist token) w.redis ≡ false
    pub known : find (by_id p.sub) w.users ≡ some user
    pub present : user.is_deleted ≡ false
    pub active : user.is_active ≡ true
    pub stored :
        first_verified
          (verify env.scrypt)
          token
          (select (λ t. of_user p.sub t && is_open t) w.refresh_tokens)
        ≡ some t
    pub fresh : leb t.expires_at w.now ≡ false
    pub in_cap :
        ltb (session_start w.now p t + max_session env (is_true p.remember_me)) w.now ≡ false

module _ {r : RedisServer} (env : Env) (req : Request) (token : String) where
  reject_unverified-error :
      (w : World r) (key : Key) → (reject_unverified env req token key w).0 ≡ err (http 401 key)
  unfolding reject_unverified
  reject_unverified-error w key = ground arith

  report_theft-error :
      (w : World r) (p : JwtPayload)
      → (report_theft env req p w).0 ≡ err (http 401 invalid_refresh_token)
  unfolding report_theft
  report_theft-error w p = ground arith

  check_refresh-found :
      (w : World r) (q p : JwtPayload) (u user : User) (row : Option RefreshToken)
      (t : RefreshToken)
      → Jwt.verify_refresh_token env w.now token ≡ valid q
      → find (by_id q.sub) w.users ≡ some u
      → first_verified
          (verify env.scrypt)
          token
          (select (λ t. of_user q.sub t && is_open t) w.refresh_tokens)
        ≡ row
      → (check_refresh env req token w).0 ≡ ok (p, user, t)
      → (q ≡ p)
        × (u ≡ user)
        × (row ≡ some t)
        × (truthy token ≡ true)
        × (exists r w.now (blacklist token) w.redis ≡ false)
        × (user.is_deleted ≡ false)
        × (user.is_active ≡ true)
        × (leb t.expires_at w.now ≡ false)
        × (ltb (session_start w.now p t + max_session env (is_true p.remember_me)) w.now ≡ false)
  unfolding check_refresh verified_payload
  check_refresh-found w q p u user row t signed known stored h =
      ground (arith, report_theft-error w q)

  check_refresh-unsigned :
      (w : World r) (x : JwtPayload × User × RefreshToken)
      → ((p : JwtPayload) → Jwt.verify_refresh_token env w.now token ≢ valid p)
      → (check_refresh env req token w).0 ≢ ok x
  unfolding check_refresh verified_payload
  check_refresh-unsigned w x h e = go (Jwt.verify_refresh_token env w.now token) refl
    where
      go : (v : Verified) → Jwt.verify_refresh_token env w.now token ≡ v → ⊥
      go (valid p) q = h p q
      go expired q = ground (arith, reject_unverified-error w expired_refresh_token)
      go malformed q = ground (arith, reject_unverified-error w invalid_refresh_token)

  check_refresh-unknown :
      (w : World r) (q : JwtPayload) (x : JwtPayload × User × RefreshToken)
      → Jwt.verify_refresh_token env w.now token ≡ valid q
      → find (by_id q.sub) w.users ≡ none
      → (check_refresh env req token w).0 ≢ ok x
  unfolding check_refresh verified_payload
  check_refresh-unknown w q x signed known e = ground arith

  check_refresh-signed :
      (w : World r) (q p : JwtPayload) (user : User) (t : RefreshToken)
      → Jwt.verify_refresh_token env w.now token ≡ valid q
      → (check_refresh env req token w).0 ≡ ok (p, user, t)
      → IsRefreshable env token w p user t
  check_refresh-signed w q p user t signed h = elim (Option-cases (find (by_id q.sub) w.users)) [
    | inl e ↦ absurd (check_refresh-unknown w q (p, user, t) signed e h)
    | inr (u, known) ↦
        let (a, b, c, d, e, f, g, i, j) =
          check_refresh-found w q p u user _ t signed known refl h in
        record {
          given = d;
          signed = rw (← a) signed;
          free = e;
          known = rw (← a, ← b) known;
          present = f;
          active = g;
          stored = rw (← a) c;
          fresh = i;
          in_cap = j;
        }
  ]

  check_refresh-IsRefreshable :
      (w : World r) (p : JwtPayload) (user : User) (t : RefreshToken)
      → (check_refresh env req token w).0 ≡ ok (p, user, t)
      → IsRefreshable env token w p user t
  check_refresh-IsRefreshable w p user t h = go (Jwt.verify_refresh_token env w.now token) refl
    where
      go :
          (v : Verified)
          → Jwt.verify_refresh_token env w.now token ≡ v
          → IsRefreshable env token w p user t
      go (valid q) e = check_refresh-signed w q p user t e h
      go expired e = absurd (check_refresh-unsigned w (p, user, t) (λ q f. cc) h)
      go malformed e = absurd (check_refresh-unsigned w (p, user, t) (λ q f. cc) h)

  -- The checks let exactly a refreshable token through, and change nothing then.
  pub check_refresh_iff :
      (w : World r) (p : JwtPayload) (user : User) (t : RefreshToken)
      → (check_refresh env req token w ≡ (ok (p, user, t), w)) ↔ IsRefreshable env token w p user t
  unfolding check_refresh verified_payload
  check_refresh_iff w p user t = (
    λ h. check_refresh-IsRefreshable w p user t (ap (λ x. x.0) h),
    λ h. ground (
      arith, h.given, h.signed, h.free, h.known, h.present, h.active, h.stored, h.fresh, h.in_cap,
    ),
  )
