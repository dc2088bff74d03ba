-- ===== src/Auth/Refresh.antt =====
-- src/modules/auth/providers/refresh-token.provider.ts: a refresh token is exchanged for a new pair.
pub mod Checks
pub mod Theft
use nestjs_template.Common.{
  ℕ, ◌+◌, ◌*◌, String, Bool, not, ◌&&◌, Option, none, some, or_else, truthy_number, Key, List, ltb,
  leb, truthy, truthy_option, if◌then◌else◌, Action, pure, throw, gets, when, throw_if, non_null,
  ◌>>=◌, ◌>>◌, http, after_seconds, invalid_refresh_token, expired_refresh_token, user_archive,
  user_inactive, session_expired,
}
use nestjs_template.Redis.{
  RedisServer, session_key, blacklist, of_family, SessionHash, exists, hgetall, del_all,
}
use nestjs_template.State.{
  World, Env, Request, User, RefreshToken, JwtPayload, valid, expired, malformed, theft_detected,
  refresh_replaced, on_redis,
}
use nestjs_template.State.Tables.{users}
use nestjs_template.Jwt
use nestjs_template.Base.Repository.{find_one}
use nestjs_template.Users.{by_id}
use nestjs_template.Permissions.Lookup.{find_permission_keys}
use nestjs_template.Auth.Tokens.{
  verify_refresh_token, update_refresh_token, revoke_refresh_tokens, create_refresh_token,
  cleanup_refresh_tokens,
}
use nestjs_template.Auth.History.{logout_history, update_login_history_expiry}
use nestjs_template.Auth.Sessions.{ban}
use nestjs_template.Auth.Signin.{Tokens, is_true, store_session}

-- A day in milliseconds.
abbrev pub day : ℕ
day = 24 * 60 * 60 * 1000

-- `a ?? b` of two optional values.
abbrev pub either {ℓ} : {A : Type ℓ} → Option A → Option A → Option A
either none b = b
either (some a) b = some a

-- `payload.firstIssuedAt ?? dbToken.sessionStartedAt?.getTime() ?? Date.now()`
abbrev pub session_start : ℕ → JwtPayload → RefreshToken → ℕ
session_start now p t = or_else p.first_issued_at (or_else t.session_started_at now)

abbrev pub max_session : Env → Bool → ℕ
max_session env remember_me =
    (if remember_me then env.remember_me_max_session_days else env.max_session_days) * day

-- A missing part of a key template is written `undefined`.
abbrev pub key_part : Option String → String
key_part o = or_else o "undefined"

abbrev pub hash_field : (SessionHash → String) → Option SessionHash → String
hash_field f none = ""
hash_field f (some h) = f h

abbrev pub created_at_or : ℕ → Option SessionHash → ℕ
created_at_or now none = now
created_at_or now (some h) = h.created_at

-- The new hash keeps what is known of the session.
abbrev pub rotate_hash : ℕ → Option SessionHash → String → String → SessionHash
rotate_hash now old access_token refresh_token = record {
  access_token = access_token;
  refresh_token = refresh_token;
  ip = hash_field (λ h. h.ip) old;
  user_agent = hash_field (λ h. h.user_agent) old;
  created_at = created_at_or now old;
}

-- `oldTokens?.accessToken && …`, `oldTokens?.refreshToken && …`
abbrev pub ban_old : (r : RedisServer) → Env → ℕ → ℕ → Option SessionHash → r.Store → r.Store
ban_old r env now ttl none d = d
ban_old r env now ttl (some h) d =
    ban r now h.refresh_token ttl (ban r now h.access_token env.access_token_expired_in d)

-- The payload of the new pair: the device of the row wins over that of the old token.
abbrev pub rotated_payload : JwtPayload → RefreshToken → List String → ℕ → JwtPayload
rotated_payload p t permissions start = record {
  sub = p.sub;
  name = p.name;
  email = p.email;
  role_id = p.role_id;
  role_key = none;
  permissions = some permissions;
  family_id = either t.family_id p.family_id;
  session_id = p.session_id;
  first_issued_at = some start;
  remember_me = some (is_true p.remember_me);
}

module _ {r : RedisServer} (env : Env) (req : Request) where
  -- The `catch` block: the token is only decoded, its signature was refused.
  unfoldable pub reject_unverified : String → Key → Action (World r) JwtPayload
  reject_unverified token key = do
    elim (env.decode token) [
      | none ↦ pure tt
      | some p ↦
          if truthy_number p.sub && truthy_option p.session_id
          then (do logout_history p.sub p.session_id; pure tt)
          else pure tt
    ]
    throw (http 401 key)

  unfoldable pub verified_payload : String → Action (World r) JwtPayload
  verified_payload token = do
    now ← gets (λ w. w.now)
    elim (Jwt.verify_refresh_token env now token) [
      | valid p ↦ pure p
      | expired ↦ reject_unverified token expired_refresh_token
      | malformed ↦ reject_unverified token invalid_refresh_token
    ]

  -- A token that is not in the table: its device family is revoked and its sessions removed.
  unfoldable pub report_theft : JwtPayload → Action (World r) RefreshToken
  report_theft p = do
    when (truthy_option p.family_id) (do
      revoke_refresh_tokens (some p.sub) p.family_id theft_detected
      keys ← gets (λ w. r.scan w.now (of_family p.sub (key_part p.family_id)) w.redis)
      on_redis (del_all r keys))
    throw (http 401 invalid_refresh_token)

  -- Everything up to the rotation: the payload and the row of the token.
  unfoldable pub check_refresh : String → Action (World r) (JwtPayload × User × RefreshToken)
  check_refresh token = do
    throw_if (not (truthy token)) (http 401 invalid_refresh_token)
    p ← verified_payload token
    now ← gets (λ w. w.now)
    banned ← gets (λ w. exists r w.now (blacklist token) w.redis)
    throw_if banned (http 401 invalid_refresh_token)
    found ← find_one users (by_id p.sub)
    user ← non_null found
    throw_if user.is_deleted (http 401 user_archive)
    throw_if (not user.is_active) (http 401 user_inactive)
    row ← verify_refresh_token env token p.sub
    t ← elim row [ none ↦ report_theft p | some t ↦ pure t ]
    throw_if (leb t.expires_at now) (http 401 expired_refresh_token)
    throw_if (ltb (session_start now p t + max_session env (is_true p.remember_me)) now)
        (http 401 session_expired)
    pure (p, user, t)

  -- The rotation.
  unfoldable pub rotate : JwtPayload → User → RefreshToken → Action (World r) Tokens
  rotate p user t = do
    now ← gets (λ w. w.now)
    let start = session_start now p t
    let remember_me = is_true p.remember_me
    let ttl = Jwt.get_refresh_ttl env remember_me
    update_refresh_token t.id refresh_replaced
    permissions ← find_permission_keys (some user.role_id)
    let payload = rotated_payload p t permissions start
    let access_token = Jwt.sign_access_token env now payload
    let refresh_token = Jwt.sign_refresh_token env now payload remember_me
    create_refresh_token env req refresh_token p.sub (some start) (some ttl)
    cleanup_refresh_tokens p.sub
    let key = session_key p.sub (key_part payload.family_id) (key_part p.session_id)
    old ← gets (λ w. hgetall r w.now key w.redis)
    on_redis (ban_old r env now ttl old)
    existing ← gets (λ w. hgetall r w.now key w.redis)
    on_redis (store_session r now key (rotate_hash now existing access_token refresh_token) ttl)
    update_login_history_expiry p.sub p.session_id (after_seconds now ttl)
    pure (record { access_token = access_token; refresh_token = refresh_token })

  -- `RefreshTokenProvider.execute`
  unfoldable pub refresh_tokens : String → Action (World r) Tokens
  refresh_tokens token = do checked ← check_refresh token; rotate checked.0 checked.1 checked.2
