-- ===== src/Auth/Account/Replaced.antt =====
-- What a change of the password leaves behind.
use nestjs_template.Common.{
  ℕ, suc, String, ◌≤◌, ◌<◌, ◌≡◌, refl, true, false, ◌&&◌, Option, none, some, or_else, List, [],
  ◌∷◌, ◌++◌, find, find-update_first, update_first, update_where, any, All, Has, All-map, truthy,
  truthy_option, after_seconds, ok, arith, ==_refl, if◌then◌else◌, Option-cases, inl, inr,
}
use nestjs_template.Redis.{
  RedisServer, RedisLaws, session_key, blacklist, of_user, Value, SessionHash, hgetall,
}
use nestjs_template.Redis.Bulk.{scan-All}
use nestjs_template.Hash.{create_hash, verify}
use nestjs_template.Hibp.{is_breached}
use nestjs_template.State.{
  World, Env, User, UserPayload, RefreshToken, Reason, LogAction, profile_updated,
  change_password_mail,
}
use nestjs_template.Base.Providers.{update_provider}
use nestjs_template.Users.{update_user, by_id}
use nestjs_template.Auth.Tokens.{revocable, mark_revoked, is_open}
use nestjs_template.Auth.Passwords.{
  newest, trim_history, save_password_history, check_password_history,
}
use nestjs_template.Auth.Sessions.{drop_sessions}
use nestjs_template.Auth.Sessions.Loop.{is_session, is_session_of_matches}
use nestjs_template.Auth.Sessions.Drop.{
  get-drop_sessions, get-drop_sessions-none, drop_sessions-ban,
}
use nestjs_template.Auth.Account.{replace_password, change_password}

module _ {r : RedisServer} (env : Env) (password : String) (w : World r) where
  -- The hash that is stored: the salt is the next draw.
  abbrev pub new_hash : String
  new_hash = create_hash env.scrypt (env.random w.draws 16) password

  abbrev pub set_password : User → User
  set_password x = record x { password = some new_hash }

  abbrev pub replaced : ℕ → Reason → World r
  replaced u reason = record w {
    draws = suc w.draws;
    next_id = suc w.next_id;
    users = update_first (by_id u) set_password w.users;
    password_histories = trim_history u (
        w.password_histories
        ++ record { id = w.next_id; user_id = u; password_hash = new_hash; created_at = w.now }
          ∷ []);
    refresh_tokens =
        update_where (revocable (some u) none) (mark_revoked w.now reason) w.refresh_tokens;
    redis = drop_sessions r env w.now (r.scan w.now (of_user u) w.redis) w.redis;
    activity = record { action = profile_updated; user_id = some u } ∷ w.activity;
  }

  replace_password_eq :
      (x : User) (u : ℕ) (reason : Reason)
      → find (by_id u) w.users ≡ some x
      → x.is_deleted ≡ false
      → x.id ≡ u
      → replace_password env u password reason w ≡ (ok tt, replaced u reason)
  unfolding replace_password update_user update_provider save_password_history
  replace_password_eq x u reason known present own = ground arith

-- What a change of the password asks for.
pub record IsChangeable {r : RedisServer} (env : Env) (old new : String) (w : World r) (x : User)
    : Type 0 where
  pub known : find (by_id x.id) w.users ≡ some x
  pub present : x.is_deleted ≡ false
  pub set : truthy_option x.password ≡ true
  pub fits : verify env.scrypt (or_else x.password "") old ≡ true
  pub unused :
      any (λ h. verify env.scrypt h.password_hash new) (newest 5 x.id w.password_histories) ≡ false
  pub safe : (env.hibp_enabled && is_breached env new) ≡ false

module _ {r : RedisServer} (env : Env) (old new : String) (w : World r) (x : User) where
  -- The state after the change.
  abbrev pub changed : World r
  changed = record (replaced env new w x.id Reason.password_changed) {
    outbox = if env.testing then w.outbox else change_password_mail x.email ∷ w.outbox;
    activity =
        record { action = LogAction.change_password_success; user_id = some x.id }
        ∷ record { action = profile_updated; user_id = some x.id }
        ∷ w.activity;
  }

  change_password_eq :
      (current : UserPayload)
      → current.id ≡ x.id
      → IsChangeable env old new w x
      → change_password env old new current w ≡ (ok tt, changed)
  unfolding change_password check_password_history
  change_password_eq current same h = ground (
    arith,
    h.known,
    h.present,
    h.set,
    h.fits,
    h.unused,
    h.safe,
    replace_password_eq env new w x x.id Reason.password_changed h.known h.present refl,
  )

  tokens_revoked :
      (u : ℕ) (reason : Reason) (ts : List RefreshToken)
      → All
          (λ k. k.user_id ≡ u → is_open k ≡ false)
          (update_where (revocable (some u) none) (mark_revoked w.now reason) ts)
  tokens_revoked u reason [] = tt
  tokens_revoked u reason (k ∷ ts) = ground (arith, tokens_revoked u reason ts)

-- What a change of the password promises at a time `t`.
pub record IsReplaced {r : RedisServer} (env : Env) (new : String) (x : User) (w : World r) (t : ℕ)
    (w' : World r) : Type 0 where
  pub stored : find (by_id x.id) w'.users ≡ some (set_password env new w x)
  pub no_session : (f s : String) → r.get t (session_key x.id f s) w'.redis ≡ none
  pub banned :
      (f s : String) (h : SessionHash)
      → hgetall r w.now (session_key x.id f s) w.redis ≡ some h
      → truthy h.access_token ≡ true
      → t < after_seconds w.now env.access_token_expired_in
      → r.get t (blacklist h.access_token) w'.redis ≡ some Value.marker
  pub no_token : All (λ k. k.user_id ≡ x.id → is_open k ≡ false) w'.refresh_tokens

module _ {r : RedisServer} (laws : RedisLaws r) (env : Env) (old new : String) (w : World r)
    (x : User) where
  scan-Has :
      (t : ℕ) (f s : String) (v : Value)
      → w.now ≤ t
      → r.get t (session_key x.id f s) w.redis ≡ some v
      → Has (session_key x.id f s) (r.scan w.now (of_user x.id) w.redis)
  scan-Has t f s v le e =
      laws.scan_complete w.now (of_user x.id) (session_key x.id f s) v w.redis (==_refl x.id)
        (laws.get_persist t w.now (session_key x.id f s) v w.redis le e)

  session_dropped :
      (t : ℕ) (f s : String)
      → w.now ≤ t
      → r.get t
          (session_key x.id f s)
          (drop_sessions r env w.now (r.scan w.now (of_user x.id) w.redis) w.redis)
        ≡ none
  session_dropped t f s le = elim (Option-cases (r.get t (session_key x.id f s) w.redis)) [
    | inl e ↦
        get-drop_sessions-none laws env t w.now le (session_key x.id f s)
          (r.scan w.now (of_user x.id) w.redis) w.redis refl e
    | inr (v, e) ↦ get-drop_sessions laws env t w.now le w.redis refl (scan-Has t f s v le e)
  ]

  session_banned :
      (t : ℕ) (f s : String) (h : SessionHash)
      → w.now ≤ t
      → hgetall r w.now (session_key x.id f s) w.redis ≡ some h
      → truthy h.access_token ≡ true
      → t < after_seconds w.now env.access_token_expired_in
      → r.get t
          (blacklist h.access_token)
          (drop_sessions r env w.now (r.scan w.now (of_user x.id) w.redis) w.redis)
        ≡ some Value.marker
  session_banned t f s h le e a live =
      let sessions =
        All-map _ (λ k. is_session k ≡ true) (r.scan w.now (of_user x.id) w.redis)
          (λ k m. is_session_of_matches r.glob x.id k m)
          (scan-All laws w.now (of_user x.id) w.redis) in
      drop_sessions-ban laws env t w.now le live h w.redis a sessions
        (found (r.get w.now (session_key x.id f s) w.redis) refl) e
    where
      found :
          (v : Option Value)
          → r.get w.now (session_key x.id f s) w.redis ≡ v
          → Has (session_key x.id f s) (r.scan w.now (of_user x.id) w.redis)
      found none q = absurd (ground arith)
      found (some v) q = scan-Has w.now f s v (omega arith) q

  -- A password is changed where the account is known and not archived, the old password fits, and
  -- the new one is neither among the last five nor listed as breached. The account then has the hash
  -- of the new password; from that time on it has no session in Redis, that of the request included,
  -- the access tokens of the sessions that it had are banned for their lifetime, and all its refresh
  -- tokens are revoked.
  pub change_password-IsReplaced :
      (current : UserPayload) (t : ℕ)
      → current.id ≡ x.id
      → IsChangeable env old new w x
      → w.now ≤ t
      → ((change_password env old new current w).0 ≡ ok tt)
        × IsReplaced env new x w t (change_password env old new current w).1
  change_password-IsReplaced current t same h le =
      rw (change_password_eq env old new w x current same h) (
        refl,
        record {
          stored =
              find-update_first (by_id x.id) (by_id x.id) (set_password env new w) x w.users h.known
                h.known (==_refl x.id);
          no_session = λ f s. session_dropped t f s le;
          banned = λ f s k e a live. session_banned t f s k le e a live;
          no_token = tokens_revoked env old new w x x.id Reason.password_changed w.refresh_tokens;
        },
      )
