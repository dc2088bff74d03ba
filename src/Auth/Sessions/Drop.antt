-- ===== src/Auth/Sessions/Drop.antt =====
-- The loop of a password change over a user's session keys.
use nestjs_template.Common.{
  ℕ, String, ◌≤◌, ◌<◌, ◌≡◌, true, false, none, some, List, [], ◌∷◌, Has, here, there, All, All-has,
  Bool-cases, Option-cases, inl, inr, arith, truthy, after_seconds,
}
use nestjs_template.Redis.{
  RedisServer, RedisLaws, RedisKey, blacklist, same_key, same_key_refl, same_key_iff, Value,
  SessionHash, hgetall,
}
use nestjs_template.Auth.Sessions.{drop_session, drop_sessions}
use nestjs_template.Auth.Sessions.Ban.{get-ban_ne, get-ban_self, get-ban_keep}
use nestjs_template.Auth.Sessions.Loop.{is_session, blacklist_ne_session, session_ne_blacklist}
use nestjs_template.State.{Env}

module _ {r : RedisServer} (laws : RedisLaws r) (env : Env) (t now : ℕ) (le : now ≤ t) where
  module _ (k : RedisKey) (d : r.Store) where
    get-drop_other :
        (j : RedisKey)
        → is_session j ≡ true
        → same_key k j ≡ false
        → r.get t j (drop_session r env now k d) ≡ r.get t j d
    unfolding drop_session
    get-drop_other j s e = elim (Option-cases (hgetall r now k d)) [
      | inl q ↦ rw (q, drop_session) (rw (laws.get-remove t j k _) (rw e))
      | inr (h, q) ↦
          rw (q, drop_session)
            (rw (laws.get-remove t j k _)
              (rw e (get-ban_ne laws t now j h.access_token _ d le (blacklist_ne_session _ j s))))
    ]

    get-drop_self : r.get t k (drop_session r env now k d) ≡ none
    unfolding drop_session
    get-drop_self = elim (Option-cases (hgetall r now k d)) [
      | inl q ↦ rw (q, drop_session) (rw (laws.get-remove t k k _) (rw (same_key_refl k)))
      | inr (h, q) ↦ rw (q, drop_session) (rw (laws.get-remove t k k _) (rw (same_key_refl k)))
    ]

    module _ (session : is_session k ≡ true)
        (live : t < after_seconds now env.access_token_expired_in) where
      drop_bans :
          (h : SessionHash)
          → hgetall r now k d ≡ some h
          → truthy h.access_token ≡ true
          → r.get t (blacklist h.access_token) (drop_session r env now k d) ≡ some Value.marker
      unfolding drop_session
      drop_bans h q a =
          rw (q, drop_session)
            (rw (laws.get-remove t (blacklist h.access_token) k _) (
              rw (session_ne_blacklist h.access_token k session)
                (get-ban_self laws t now h.access_token _ d le live a)))

      drop_keeps_ban :
          (x : String)
          → r.get t (blacklist x) d ≡ some Value.marker
          → r.get t (blacklist x) (drop_session r env now k d) ≡ some Value.marker
      unfolding drop_session
      drop_keeps_ban x b = elim (Option-cases (hgetall r now k d)) [
        | inl q ↦
            rw (q, drop_session)
              (rw (laws.get-remove t (blacklist x) k _) (rw (session_ne_blacklist x k session) b))
        | inr (h, q) ↦
            rw (q, drop_session)
              (rw (laws.get-remove t (blacklist x) k _) (
                rw (session_ne_blacklist x k session)
                  (get-ban_keep laws t now x h.access_token _ d le live b)))
      ]

  pub get-drop_sessions-none :
      (j : RedisKey) (ks : List RedisKey) (d : r.Store)
      → is_session j ≡ true
      → r.get t j d ≡ none
      → r.get t j (drop_sessions r env now ks d) ≡ none
  unfolding drop_sessions
  get-drop_sessions-none j [] d s h = h
  get-drop_sessions-none j (k ∷ ks) d s h =
      get-drop_sessions-none j ks (drop_session r env now k d) s (elim (Bool-cases (same_key k j)) [
        | inl e ↦ rw (← (same_key_iff k j).0 e) (get-drop_self k d)
        | inr e ↦ rw (get-drop_other k d j s e) h
      ])

  -- Every session that the loop meets is gone.
  pub get-drop_sessions :
      {j : RedisKey} {ks : List RedisKey} (d : r.Store)
      → is_session j ≡ true
      → Has j ks
      → r.get t j (drop_sessions r env now ks d) ≡ none
  unfolding drop_sessions
  get-drop_sessions {j} d s (here {xs}) =
      get-drop_sessions-none j xs (drop_session r env now j d) s (get-drop_self j d)
  get-drop_sessions d s (there {x} m) = get-drop_sessions (drop_session r env now x d) s m

  drop_sessions-keep_ban :
      (x : String) (ks : List RedisKey) (d : r.Store)
      → t < after_seconds now env.access_token_expired_in
      → All (λ k. is_session k ≡ true) ks
      → r.get t (blacklist x) d ≡ some Value.marker
      → r.get t (blacklist x) (drop_sessions r env now ks d) ≡ some Value.marker
  unfolding drop_sessions
  drop_sessions-keep_ban x [] d live s b = b
  drop_sessions-keep_ban x (k ∷ ks) d live s b =
      drop_sessions-keep_ban x ks (drop_session r env now k d) live s.1
        (drop_keeps_ban k d s.0 live x b)

module _ {r : RedisServer} (laws : RedisLaws r) (env : Env) (t now : ℕ) (le : now ≤ t)
    (live : t < after_seconds now env.access_token_expired_in) where
  -- The access token of every session that the loop meets is banned.
  pub drop_sessions-ban :
      (h : SessionHash) {j : RedisKey} {ks : List RedisKey} (d : r.Store)
      → truthy h.access_token ≡ true
      → All (λ k. is_session k ≡ true) ks
      → Has j ks
      → hgetall r now j d ≡ some h
      → r.get t (blacklist h.access_token) (drop_sessions r env now ks d) ≡ some Value.marker
  unfolding drop_sessions
  drop_sessions-ban h {j} d a s (here {xs}) q =
      drop_sessions-keep_ban laws env t now le h.access_token xs _ live s.1
        (drop_bans laws env t now le j d s.0 live h q a)
  drop_sessions-ban h {j} d a s (there {x} {xs} m) q = elim (Bool-cases (same_key x j)) [
    | inl e ↦
        let same = (same_key_iff x j).0 e in
        drop_sessions-keep_ban laws env t now le h.access_token xs _ live s.1
          (drop_bans laws env t now le x d s.0 live h (rw same q) a)
    | inr e ↦
        drop_sessions-ban h (drop_session r env now x d) a s.1 m
          (rw (get-drop_other laws env now now (omega arith) x d j (All-has _ s.1 m) e) q)
  ]
