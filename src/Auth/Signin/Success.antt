-- ===== src/Auth/Signin/Success.antt =====
-- What a sign-in with the right password leaves behind.
use nestjs_template.Common.{
  ℕ, suc, String, ◌≤◌, ◌<◌, ◌≡◌, ◌≢◌, refl, false, ◌&&◌, none, some, ◌∷◌, find, find-update_first,
  update_first, update_where, ok, arith, ==_refl, ===_refl, eq_iff, ◌==◌, Option-cases, Bool-cases,
  inl, inr, after_seconds, if◌then◌else◌, lt→ltb, ltb,
}
use nestjs_template.Redis.{
  RedisServer, RedisLaws, RedisKey, session_key, same_key, same_key_refl, of_family, del_all, Value,
  SessionHash, hgetall,
}
use nestjs_template.Redis.Bulk.{get-del_all-none, get-del_all-Has}
use nestjs_template.Client.{device_fingerprint}
use nestjs_template.Jwt.{get_refresh_ttl}
use nestjs_template.State.{
  World, Env, Request, User, signin_replaced, signin_success, profile_updated,
}
use nestjs_template.Base.Providers.{update_provider}
use nestjs_template.Users.{update_user, by_id}
use nestjs_template.Auth.Tokens.{revocable, mark_revoked}
use nestjs_template.Auth.History.{family_is, is_open_login, close_login}
use nestjs_template.Auth.Signin.{
  SigninDto, Tokens, is_true, clear_failures, store_session, replace_device_session, signin,
}
use nestjs_template.Auth.Signin.Credentials.{IsEntitled, check_credentials_iff}
use nestjs_template.Auth.Signin.Opened.{new_tokens, new_hash, open_session-ok}

module _ {r : RedisServer} (env : Env) (req : Request) (dto : SigninDto) (w : World r)
    (user : User) where
  -- The identifier of the new session, and the lifetime of its refresh token.
  abbrev pub session_id : String
  session_id = env.random w.draws 8

  abbrev pub lifetime : ℕ
  lifetime = get_refresh_ttl env (is_true dto.remember_me)

  -- The state in which the new session is opened.
  abbrev pub cleared : World r
  cleared = record w {
    draws = suc w.draws;
    users = update_first (by_id user.id) clear_failures w.users;
    redis =
        del_all r (r.scan w.now (of_family user.id (device_fingerprint env req)) w.redis) w.redis;
    refresh_tokens =
        update_where (revocable (some user.id) (some (device_fingerprint env req)))
          (mark_revoked w.now signin_replaced) w.refresh_tokens;
    login_histories =
        update_where
          (λ h.
            h.user_id == user.id
            && family_is h.family_id (device_fingerprint env req)
            && is_open_login h)
          (close_login w.now) w.login_histories;
    activity = record { action = profile_updated; user_id = some user.id } ∷ w.activity;
  }

  update_user_eq :
      find (by_id user.id) w.users ≡ some user
      → user.is_deleted ≡ false
      → update_user none clear_failures (by_id user.id) w ≡ (
        ok (clear_failures user),
        record w {
          users = update_first (by_id user.id) clear_failures w.users;
          activity = record { action = profile_updated; user_id = some user.id } ∷ w.activity;
        },
      )
  unfolding update_user update_provider
  update_user_eq own present = ground arith

  abbrev pub tokens : Tokens
  tokens =
      new_tokens env req user session_id (some (is_true dto.remember_me)) (some lifetime) cleared

  signin-ok :
      IsEntitled env dto w user
      → find (by_id user.id) w.users ≡ some user
      → (v : World r) × (signin env req dto w ≡ (ok (user, tokens), v))
        × (v.redis
            ≡ store_session r w.now
                (session_key user.id (device_fingerprint env req) session_id)
                (new_hash env req user session_id
                  (some (is_true dto.remember_me))
                  (some lifetime)
                  cleared)
                lifetime
                cleared.redis)
        × (v.users ≡ cleared.users)
  unfolding signin replace_device_session
  signin-ok h own =
      let a = (check_credentials_iff env req dto w user).1 h in
      let b = update_user_eq own h.present in
      let (v, c, d, e) =
        open_session-ok env req user session_id (some (is_true dto.remember_me)) (some lifetime)
          cleared in
      (
        record v {
          activity = record { action = signin_success; user_id = some user.id } ∷ v.activity;
        },
        ground (arith, a, b, c),
        d,
        e,
      )

  old_session_gone :
      (laws : RedisLaws r) (t : ℕ) (s : String)
      → w.now ≤ t
      → r.get t (session_key user.id (device_fingerprint env req) s) cleared.redis ≡ none
  old_session_gone laws t s le =
      let f = device_fingerprint env req in
      let k = session_key user.id f s in
      let found = r.scan w.now (of_family user.id f) w.redis in
      elim (Option-cases (r.get t k w.redis)) [
        | inl e ↦ get-del_all-none laws t k found w.redis e
        | inr (v, e) ↦ get-del_all-Has laws t w.redis (
            laws.scan_complete w.now (of_family user.id f) k v w.redis
              (ground (arith, ==_refl user.id, ===_refl f))
              (laws.get_persist t w.now k v w.redis le e))
      ]

  get-store_session :
      (laws : RedisLaws r) (t ttl : ℕ) (j k : RedisKey) (h : SessionHash) (d : r.Store)
      → w.now ≤ t
      → r.get t j (store_session r w.now k h ttl d) ≡ (
          if same_key k j
          then (if ltb t (after_seconds w.now ttl) then some (Value.session h) else none)
          else r.get t j d)
  get-store_session laws t ttl j k h d le = elim (Bool-cases (same_key k j)) [
    | inl e ↦
        rw (laws.get-expire t w.now j k ttl (r.hset w.now k h d) le)
          (rw e (rw (laws.get-hset_self w.now k h d)))
    | inr e ↦
        rw (laws.get-expire t w.now j k ttl (r.hset w.now k h d) le)
          (rw e (laws.get-hset_ne t w.now j k h d e))
  ]

  -- What a sign-in promises at a time `t`.
  pub record IsSignedIn (t : ℕ) (w' : World r) : Type 0 where
    pub cleared_row : find (by_id user.id) w'.users ≡ some (clear_failures user)
    pub readable :
        t < after_seconds w.now lifetime
        → hgetall r t (session_key user.id (device_fingerprint env req) session_id) w'.redis
          ≡ some (
              new_hash env req user session_id
                (some (is_true dto.remember_me))
                (some lifetime)
                cleared)
    pub only :
        (s : String)
        → s ≢ session_id
        → r.get t (session_key user.id (device_fingerprint env req) s) w'.redis ≡ none

  -- The sign-in of an entitled account, whose id is its own, succeeds with the tokens of the account:
  -- its failed attempts are forgotten, the new session can be read until its lifetime is over, and
  -- the device has no other session.
  pub signin-IsSignedIn :
      (laws : RedisLaws r) (t : ℕ)
      → IsEntitled env dto w user
      → find (by_id user.id) w.users ≡ some user
      → w.now ≤ t
      → ((signin env req dto w).0 ≡ ok (user, tokens)) × IsSignedIn t (signin env req dto w).1
  signin-IsSignedIn laws t h own le =
      let f = device_fingerprint env req in
      let k = session_key user.id f session_id in
      let hash =
        new_hash env req user session_id (some (is_true dto.remember_me)) (some lifetime) cleared in
      let (v, e, stored, kept) = signin-ok h own in
      rw e (
        refl,
        record {
          cleared_row = rw kept (
              find-update_first (by_id user.id) (by_id user.id) clear_failures user w.users own own
                (==_refl user.id));
          readable = λ early. rw stored (
              rw (get-store_session laws t lifetime k k hash cleared.redis le)
                (rw (same_key_refl k) (rw (lt→ltb t (after_seconds w.now lifetime) early))));
          only = λ s other.
              let differs : same_key k (session_key user.id f s) ≡ false =
                ground (arith, eq_iff session_id s, ==_refl user.id, ===_refl f) in
              rw stored (
                rw
                  (get-store_session laws t lifetime (session_key user.id f s) k hash cleared.redis
                    le)
                  (rw differs (old_session_gone laws t s le)));
        },
      )
