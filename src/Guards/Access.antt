-- ===== src/Guards/Access.antt =====
-- Who gets through the guards.
use nestjs_template.Common.{
  String, ◌≡◌, refl, ◌≢◌, true, false, Option, none, some, or_else, Has, every-Has, arith, Result,
  ok, err, http, unauthorized, Bool-cases, Option-cases, inl, inr, truthy, unauthorized,
}
use nestjs_template.Redis.{RedisServer, blacklist, exists}
use nestjs_template.State.{World, Env, JwtPayload, UserPayload, valid, expired, malformed, Verified}
use nestjs_template.Jwt.{verify_access_token}
use nestjs_template.Guards.{
  Call, includes, public, optional, extract_token, validate_token, auth_guard, required, holds,
  permissions_guard, enter, user_of,
}

module _ {r : RedisServer} (env : Env) (w : World r) (c : Call) where
  -- The user of a call comes from a token that is presented, not banned and verified.
  pub record IsAuthentic (u : UserPayload) : Type 0 where
    pub token : String
    pub presented : extract_token c ≡ some token
    pub free : exists r w.now (blacklist token) w.redis ≡ false
    pub payload : JwtPayload
    pub verified : verify_access_token env w.now token ≡ valid payload
    pub same : u ≡ user_of payload

  validate_token-IsAuthentic : (u : UserPayload) → validate_token env w c ≡ ok u → IsAuthentic u
  unfolding validate_token
  validate_token-IsAuthentic u h = elim (Option-cases (extract_token c)) [
    | inl e ↦ absurd (ground arith)
    | inr (t, e) ↦ elim (Bool-cases (truthy t)) [
      | inl a ↦ elim (Bool-cases (exists r w.now (blacklist t) w.redis)) [
        | inl b ↦ absurd (ground arith)
        | inr b ↦ go t e b (verify_access_token env w.now t) refl (ground arith)
      ]
      | inr a ↦ absurd (ground arith)
    ]
  ]
    where
      go :
          (t : String)
          → extract_token c ≡ some t
          → exists r w.now (blacklist t) w.redis ≡ false
          → (v : Verified) → verify_access_token env w.now t ≡ v
          → (elim v [
            | valid p ↦ ok (user_of p)
            | expired ↦ err (http 401 unauthorized)
            | malformed ↦ err (http 401 unauthorized)
          ])
            ≡ ok u
          → IsAuthentic u
      go t e b (valid p) q k = record {
        token = t;
        presented = e;
        free = b;
        payload = p;
        verified = q;
        same = cc;
      }
      go t e b expired q k = cc
      go t e b malformed q k = cc

  auth_guard-IsAuthentic : (u : UserPayload) → auth_guard env w c ≡ ok (some u) → IsAuthentic u
  unfolding auth_guard
  auth_guard-IsAuthentic u h =
      let e : validate_token env w c ≡ ok u = ground arith in validate_token-IsAuthentic u e

  auth_guard-known :
      (user : Option UserPayload)
      → auth_guard env w c ≡ ok user
      → includes public c.auth_types ≡ false
      → includes optional c.auth_types ≡ false
      → user ≢ none
  unfolding auth_guard
  auth_guard-known user h p o e = ground arith

  enter-parts :
      (user : Option UserPayload)
      → enter env w c ≡ ok user
      → (auth_guard env w c ≡ ok user) × (permissions_guard c user ≡ ok tt)
  unfolding enter
  enter-parts user h = go (auth_guard env w c) refl
    where
      go :
          (a : Result (Option UserPayload))
          → auth_guard env w c ≡ a
          → (auth_guard env w c ≡ ok user) × (permissions_guard c user ≡ ok tt)
      go (err e) q = absurd (ground arith)
      go (ok v) q = step (permissions_guard c v) refl
        where
          step :
              (b : Result (Unit {0}))
              → permissions_guard c v ≡ b
              → (auth_guard env w c ≡ ok user) × (permissions_guard c user ≡ ok tt)
          step b qb = ground arith

  -- What a call that all guards let through has shown.
  pub record IsAdmitted (user : Option UserPayload) : Type 0 where
    pub authentic : (u : UserPayload) → user ≡ some u → IsAuthentic u
    pub known :
        includes public c.auth_types ≡ false → includes optional c.auth_types ≡ false → user ≢ none
    pub allowed :
        includes public c.auth_types ≡ false
        → or_else c.skip_permissions false ≡ false
        → (p : String) → Has p (required c)
        → holds user p ≡ true

  -- A call that all guards let through: its user, if there is one, comes from a token that is
  -- presented, not banned and verified; without the metadata of a public or optional route there is
  -- one; and without that of a public or permission-free route the user holds every permission that
  -- the route requires.
  pub enter-IsAdmitted : (user : Option UserPayload) → enter env w c ≡ ok user → IsAdmitted user
  unfolding permissions_guard
  enter-IsAdmitted user h =
      let (a, p) = enter-parts user h in
      record {
        authentic = λ u e. auth_guard-IsAuthentic u (cc);
        known = auth_guard-known user a;
        allowed = λ np ns q m. every-Has (holds user) (required c) (ground arith) m;
      }
