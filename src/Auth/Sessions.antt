-- ===== src/Auth/Sessions.antt =====
-- Sessions in Redis: list-sessions, revoke-session and logout under src/modules/auth/providers, and
-- the loops over a user's session keys that other providers share.
pub mod Ban
pub mod Loop
pub mod Drop
pub mod Everywhere
use nestjs_template.Common.{
  ℕ, String, Bool, true, false, not, ◌&&◌, Option, none, some, or_else, List, [], ◌∷◌, ◌++◌, map,
  truthy, truthy_option, ◌===◌, if◌then◌else◌, Action, ok, err, pure, gets, when, throw_if,
  or_throw, ◌>>=◌, ◌>>◌, http, invalid_token, auth_not_found,
}
use nestjs_template.Redis.{
  RedisServer, RedisKey, session_key, blacklist, Pattern, of_user, of_session, SessionHash, Value,
  set, hgetall, del_all,
}
use nestjs_template.State.{
  World, Env, UserPayload, Reason, signout, signout_all, log_user, on_redis, logout_success,
  logout_all, LogAction,
}
use nestjs_template.Auth.Tokens.{
  verify_refresh_token, update_refresh_token, revoke_refresh_tokens, cleanup_refresh_tokens,
}
use nestjs_template.Auth.History.{logout_history}

-- src/modules/auth/enums/logout-type.enum.ts
pub data LogoutType : Type 0 where
  current all : LogoutType

pub record SessionInfo : Type 0 where
  pub session_id : String
  pub family_id : String
  pub ip : String
  pub user_agent : String
  pub created_at : Option ℕ
  pub is_current : Bool

abbrev same_option : Option String → String → Bool
same_option none s = false
same_option (some t) s = s === t

-- One round of the loop of `ListSessionsProvider`; keys of another form are passed over.
unfoldable pub session_infos :
    (RedisKey → Option SessionHash) → Option String → List RedisKey → List SessionInfo
session_infos read own [] = []
session_infos read own (session_key u f s ∷ ks) =
    elim (read (session_key u f s)) [
      | none ↦ record {
        session_id = s;
        family_id = f;
        ip = "";
        user_agent = "";
        created_at = none;
        is_current = same_option own s;
      }
      | some h ↦ record {
        session_id = s;
        family_id = f;
        ip = h.ip;
        user_agent = h.user_agent;
        created_at = some h.created_at;
        is_current = same_option own s;
      }
    ]
    ∷ session_infos read own ks
session_infos read own (_ ∷ ks) = session_infos read own ks

-- `tokens?.refreshToken ?? rawRefreshToken`
abbrev pub token_to_revoke : Option SessionHash → Option String → Option String
token_to_revoke none raw = raw
token_to_revoke (some h) raw = some h.refresh_token

module _ (r : RedisServer) where
  -- `blacklist:<token>` for that many seconds, if there is a token.
  abbrev pub ban : ℕ → String → ℕ → r.Store → r.Store
  ban now token ttl d = if truthy token then set r now (blacklist token) Value.marker ttl d else d

  module _ (env : Env) (now : ℕ) where
    -- `LogoutProvider.blacklistAndDelete`
    unfoldable pub blacklist_and_delete : RedisKey → r.Store → r.Store
    blacklist_and_delete k d = elim (hgetall r now k d) [
      | none ↦ d
      | some h ↦ r.remove k (
          ban now h.refresh_token env.refresh_token_expired_in
            (ban now h.access_token env.access_token_expired_in d))
    ]

    -- the loop of `LogoutProvider.execute`
    unfoldable pub blacklist_all : List RedisKey → r.Store → r.Store
    blacklist_all [] d = d
    blacklist_all (k ∷ ks) d = blacklist_all ks (blacklist_and_delete k d)

    -- The loop over the stale keys in `ResetPasswordProvider` and `ChangePasswordProvider`: only the
    -- access token is banned.
    unfoldable pub drop_session : RedisKey → r.Store → r.Store
    drop_session k d = elim (hgetall r now k d) [
      | none ↦ r.remove k d
      | some h ↦ r.remove k (ban now h.access_token env.access_token_expired_in d)
    ]

    unfoldable pub drop_sessions : List RedisKey → r.Store → r.Store
    drop_sessions [] d = d
    drop_sessions (k ∷ ks) d = drop_sessions ks (drop_session k d)

module _ {r : RedisServer} where
  -- `ListSessionsProvider.execute`
  unfoldable pub list_sessions : UserPayload → Action (World r) (List SessionInfo)
  list_sessions user w = (
    ok (
        session_infos (λ k. hgetall r w.now k w.redis) user.session_id
          (r.scan w.now (of_user user.id) w.redis)),
    w,
  )

  module _ (env : Env) where
    -- A token that is found in the table is revoked.
    abbrev pub revoke_found : String → ℕ → Reason → Action (World r) (Unit {0})
    revoke_found token u reason = do
      found ← verify_refresh_token env token u
      elim found [ none ↦ pure tt | some t ↦ do update_refresh_token t.id reason; pure tt ]

    abbrev pub revoke_option : Option String → ℕ → Reason → Action (World r) (Unit {0})
    revoke_option none u reason = pure tt
    revoke_option (some token) u reason =
        if truthy token then revoke_found token u reason else pure tt

    -- The two branches of `LogoutProvider.execute`. `sessionId!` is passed on as it is, also when it
    -- is missing; a missing part of the key is written `undefined`.
    unfoldable pub logout_everywhere : UserPayload → Action (World r) (Unit {0})
    logout_everywhere user = do
      now ← gets (λ w. w.now)
      keys ← gets (λ w. r.scan w.now (of_user user.id) w.redis)
      on_redis (blacklist_all r env now keys)
      revoke_refresh_tokens (some user.id) none signout_all
      logout_history user.id none
      pure tt

    unfoldable pub logout_here : UserPayload → Option String → Action (World r) (Unit {0})
    logout_here user raw = do
      now ← gets (λ w. w.now)
      let key =
          session_key user.id (or_else user.family_id "undefined")
            (or_else user.session_id "undefined")
      tokens ← gets (λ w. hgetall r w.now key w.redis)
      on_redis (blacklist_and_delete r env now key)
      revoke_option (token_to_revoke tokens raw) user.id signout
      logout_history user.id user.session_id
      pure tt

    -- `LogoutProvider.execute`
    unfoldable pub logout : UserPayload → LogoutType → Option String → Action (World r) (Unit {0})
    unfolding logout_everywhere logout_here
    logout user LogoutType.all raw = do
      logout_everywhere user
      cleanup_refresh_tokens user.id
      log_user logout_all (some user.id)
    logout user LogoutType.current raw = do
      logout_here user raw
      cleanup_refresh_tokens user.id
      log_user logout_success (some user.id)

    -- `RevokeSessionProvider.execute` on the first key that fits.
    abbrev pub revoke_key : RedisKey → ℕ → Action (World r) (Unit {0})
    revoke_key key u = do
      now ← gets (λ w. w.now)
      tokens ← gets (λ w. hgetall r w.now key w.redis)
      elim tokens [
        | none ↦ pure tt
        | some h ↦ do
          on_redis (ban r now h.access_token env.access_token_expired_in)
          on_redis (ban r now h.refresh_token env.refresh_token_expired_in)
          revoke_option (some h.refresh_token) u Reason.session_revoked
      ]
      on_redis (r.remove key)
      log_user LogAction.session_revoked (some u)

    unfoldable pub revoke_session : UserPayload → String → Action (World r) (Unit {0})
    revoke_session user session_id = do
      keys ← gets (λ w. r.scan w.now (of_session user.id session_id) w.redis)
      elim keys [ [] ↦ throw_if true (http 404 invalid_token) | key ∷ _ ↦ revoke_key key user.id ]
