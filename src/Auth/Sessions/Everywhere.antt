-- ===== src/Auth/Sessions/Everywhere.antt =====
-- A logout from all devices.
use nestjs_template.Common.{
  ℕ, String, ◌≤◌, ◌<◌, ◌≡◌, ◌≢◌, refl, true, Option, none, some, List, [], ◌∷◌, Has, All, All-map,
  Option-cases, inl, inr, arith, truthy, after_seconds, ok, select, update_where, is_some, ==_refl,
  ◌==◌,
}
use nestjs_template.Redis.{
  RedisServer, RedisLaws, session_key, blacklist, of_user, Value, SessionHash, hgetall,
}
use nestjs_template.Redis.Bulk.{scan-All}
use nestjs_template.State.{Env, World, UserPayload, signout_all, LoginHistory}
use nestjs_template.Auth.Tokens.Clean.{cleanup-revoke_user, other_user_kept}
use nestjs_template.Auth.History.{closes, close_login}
use nestjs_template.Auth.Sessions.{LogoutType, logout}
use nestjs_template.Auth.Sessions.Loop.{
  is_session, hgetall-blacklist_all, All-bans, is_session_of_matches,
}

module _ {r : RedisServer} (laws : RedisLaws r) (env : Env) (user : UserPayload)
    (raw : Option String) (w : World r) where
  logins_closed :
      (hs : List LoginHistory)
      → All
          (λ h. h.user_id ≡ user.id → is_some h.logged_out_at ≡ true)
          (update_where (closes user.id none) (close_login w.now) hs)
  logins_closed [] = tt
  logins_closed (h ∷ hs) = ground (arith, logins_closed hs)

  -- What a logout from all devices promises at a time `t`.
  pub record IsLoggedOut (t : ℕ) (w' : World r) : Type 0 where
    pub no_session :
        (f s : String) (h : SessionHash)
        → hgetall r w.now (session_key user.id f s) w.redis ≡ some h
        → hgetall r t (session_key user.id f s) w'.redis ≡ none
    pub banned :
        (f s : String) (h : SessionHash)
        → hgetall r w.now (session_key user.id f s) w.redis ≡ some h
        → truthy h.access_token ≡ true
        → r.get t (blacklist h.access_token) w'.redis ≡ some Value.marker
    pub no_token : All (λ x. x.user_id ≢ user.id) w'.refresh_tokens
    pub others_keep :
        (v : ℕ)
        → user.id ≢ 0
        → v ≢ user.id
        → select (λ x. x.user_id == v) w'.refresh_tokens
          ≡ select (λ x. x.user_id == v) w.refresh_tokens
    pub closed : All (λ h. h.user_id ≡ user.id → is_some h.logged_out_at ≡ true) w'.login_histories

  hgetall-get :
      (n : ℕ) (f s : String) (h : SessionHash) (d : r.Store)
      → hgetall r n (session_key user.id f s) d ≡ some h
      → Has (session_key user.id f s) (r.scan n (of_user user.id) d)
  hgetall-get n f s h d e = elim (Option-cases (r.get n (session_key user.id f s) d)) [
    | inl q ↦ absurd (ground arith)
    | inr (v, q) ↦
        laws.scan_complete n (of_user user.id) (session_key user.id f s) v d (==_refl user.id) q
  ]

  -- A logout from all devices succeeds. Until the banned tokens' times are over, none of the user's
  -- sessions can be read, the access token of each is banned, no refresh token of the user is left
  -- in the table while those of other users stay, and every login of the user is closed.
  pub logout-IsLoggedOut :
      (t : ℕ)
      → w.now ≤ t
      → t < after_seconds w.now env.refresh_token_expired_in
      → t < after_seconds w.now env.access_token_expired_in
      → ((logout env user LogoutType.all raw w).0 ≡ ok tt)
        × IsLoggedOut t (logout env user LogoutType.all raw w).1
  unfolding logout
  logout-IsLoggedOut t le fresh live =
      let d = w.redis in
      let sessions =
        All-map _ (λ k. is_session k ≡ true) (r.scan w.now (of_user user.id) d)
          (λ k m. is_session_of_matches r.glob user.id k m)
          (scan-All laws w.now (of_user user.id) d) in
      (
        refl,
        record {
          no_session = λ f s h e.
              hgetall-blacklist_all laws env t w.now le d refl (hgetall-get w.now f s h d e);
          banned = λ f s h e a.
              All-bans laws env t w.now le fresh live h d a sessions (hgetall-get w.now f s h d e)
                e;
          no_token = cleanup-revoke_user w.now user.id signout_all w.refresh_tokens;
          others_keep =
              λ v p q. other_user_kept w.now user.id v none signout_all w.refresh_tokens p q;
          closed = logins_closed w.login_histories;
        },
      )
