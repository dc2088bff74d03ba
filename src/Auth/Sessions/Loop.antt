-- ===== src/Auth/Sessions/Loop.antt =====
-- The loop of a logout over a user's session keys: each session is gone and its tokens are banned.
use nestjs_template.Common.{
  ℕ, String, ◌≤◌, ◌<◌, ◌≡◌, refl, Bool, true, false, Option, none, some, List, [], ◌∷◌, Has, here,
  there, All, All-has, Bool-cases, Option-cases, inl, inr, arith, truthy, after_seconds,
}
use nestjs_template.Redis.{
  RedisServer, RedisLaws, RedisKey, session_key, blacklist, verification_token, rate_limit,
  same_key, same_key_refl, same_key_iff, Value, SessionHash, hgetall, of_user, matches,
}
use nestjs_template.Auth.Sessions.{blacklist_and_delete, blacklist_all}
use nestjs_template.Auth.Sessions.Ban.{get-ban_ne, get-ban_self, get-ban_keep}
use nestjs_template.State.{Env}

-- A key of a session; no other key is equal to one.
abbrev pub is_session : RedisKey → Bool
is_session (session_key u f s) = true
is_session _ = false

pub is_session_of_matches :
    (g : String → String → Bool) (u : ℕ) (k : RedisKey)
    → matches g (of_user u) k ≡ true
    → is_session k ≡ true
is_session_of_matches g u (session_key v f s) h = refl
is_session_of_matches g u (blacklist x) h = cc
is_session_of_matches g u (verification_token y v) h = cc
is_session_of_matches g u (rate_limit a i) h = cc

pub blacklist_ne_session :
    (x : String) (k : RedisKey) → is_session k ≡ true → same_key (blacklist x) k ≡ false
blacklist_ne_session x (session_key v f s) h = refl
blacklist_ne_session x (blacklist y) h = cc
blacklist_ne_session x (verification_token y v) h = refl
blacklist_ne_session x (rate_limit a i) h = refl

pub session_ne_blacklist :
    (x : String) (k : RedisKey) → is_session k ≡ true → same_key k (blacklist x) ≡ false
session_ne_blacklist x (session_key v f s) h = refl
session_ne_blacklist x (blacklist y) h = cc
session_ne_blacklist x (verification_token y v) h = refl
session_ne_blacklist x (rate_limit a i) h = refl

module _ {r : RedisServer} (laws : RedisLaws r) (env : Env) (t now : ℕ) (le : now ≤ t) where
  -- Without a session now there is none later.
  pub hgetall_later :
      (k : RedisKey) (d : r.Store) → hgetall r now k d ≡ none → hgetall r t k d ≡ none
  hgetall_later k d h = go (r.get t k d) refl
    where
      go : (v : Option Value) → r.get t k d ≡ v → hgetall r t k d ≡ none
      go none e = rw e refl
      go (some v) e = rw e (rw (laws.get_persist t now k v d le e) at h)

  module _ (k : RedisKey) (d : r.Store) where
    -- A step leaves the other sessions alone.
    pub get-step_other :
        (j : RedisKey)
        → is_session j ≡ true
        → same_key k j ≡ false
        → r.get t j (blacklist_and_delete r env now k d) ≡ r.get t j d
    unfolding blacklist_and_delete
    get-step_other j s e = elim (Option-cases (hgetall r now k d)) [
      | inl q ↦ rw (q, blacklist_and_delete)
      | inr (h, q) ↦
          rw (q, blacklist_and_delete)
            (rw (laws.get-remove t j k _) (
              rw e (
                rw (get-ban_ne laws t now j h.refresh_token _ _ le (blacklist_ne_session _ j s))
                  (get-ban_ne laws t now j h.access_token _ d le (blacklist_ne_session _ j s)))))
    ]

    pub hgetall-step_self : hgetall r t k (blacklist_and_delete r env now k d) ≡ none
    unfolding blacklist_and_delete
    hgetall-step_self = elim (Option-cases (hgetall r now k d)) [
      | inl q ↦ rw (q, blacklist_and_delete) (hgetall_later k d q)
      | inr (h, q) ↦
          rw (q, blacklist_and_delete) (rw (laws.get-remove t k k _) (rw (same_key_refl k)))
    ]

    module _ (session : is_session k ≡ true)
        (fresh : t < after_seconds now env.refresh_token_expired_in)
        (live : t < after_seconds now env.access_token_expired_in) where
      pub step_bans :
          (h : SessionHash)
          → hgetall r now k d ≡ some h
          → truthy h.access_token ≡ true
          → r.get t (blacklist h.access_token) (blacklist_and_delete r env now k d)
            ≡ some Value.marker
      unfolding blacklist_and_delete
      step_bans h q a =
          rw (q, blacklist_and_delete)
            (rw (laws.get-remove t (blacklist h.access_token) k _) (
              rw (session_ne_blacklist h.access_token k session) (
                get-ban_keep laws t now h.access_token h.refresh_token _ _ le fresh
                  (get-ban_self laws t now h.access_token _ d le live a))))

      pub step_keeps_ban :
          (x : String)
          → r.get t (blacklist x) d ≡ some Value.marker
          → r.get t (blacklist x) (blacklist_and_delete r env now k d) ≡ some Value.marker
      unfolding blacklist_and_delete
      step_keeps_ban x b = elim (Option-cases (hgetall r now k d)) [
        | inl q ↦ rw (q, blacklist_and_delete) b
        | inr (h, q) ↦
            rw (q, blacklist_and_delete)
              (rw (laws.get-remove t (blacklist x) k _) (
                rw (session_ne_blacklist x k session) (
                  get-ban_keep laws t now x h.refresh_token _ _ le fresh
                    (get-ban_keep laws t now x h.access_token _ d le live b))))
      ]

  -- A session that cannot be read stays so.
  hgetall-all_none :
      (j : RedisKey) (ks : List RedisKey) (d : r.Store)
      → is_session j ≡ true
      → hgetall r t j d ≡ none
      → hgetall r t j (blacklist_all r env now ks d) ≡ none
  unfolding blacklist_all
  hgetall-all_none j [] d s h = h
  hgetall-all_none j (k ∷ ks) d s h =
      hgetall-all_none j ks (blacklist_and_delete r env now k d) s
        (elim (Bool-cases (same_key k j)) [
          | inl e ↦ rw (← (same_key_iff k j).0 e) (hgetall-step_self k d)
          | inr e ↦ rw (get-step_other k d j s e) h
        ])

  pub hgetall-blacklist_all :
      {j : RedisKey} {ks : List RedisKey} (d : r.Store)
      → is_session j ≡ true
      → Has j ks
      → hgetall r t j (blacklist_all r env now ks d) ≡ none
  unfolding blacklist_all
  hgetall-blacklist_all {j} d s (here {xs}) =
      hgetall-all_none j xs (blacklist_and_delete r env now j d) s (hgetall-step_self j d)
  hgetall-blacklist_all d s (there {x} m) =
      hgetall-blacklist_all (blacklist_and_delete r env now x d) s m

  module _ (fresh : t < after_seconds now env.refresh_token_expired_in)
      (live : t < after_seconds now env.access_token_expired_in) where
    pub All-keep_ban :
        (x : String) (ks : List RedisKey) (d : r.Store)
        → All (λ k. is_session k ≡ true) ks
        → r.get t (blacklist x) d ≡ some Value.marker
        → r.get t (blacklist x) (blacklist_all r env now ks d) ≡ some Value.marker
    unfolding blacklist_all
    All-keep_ban x [] d s b = b
    All-keep_ban x (k ∷ ks) d s b =
        All-keep_ban x ks (blacklist_and_delete r env now k d) s.1
          (step_keeps_ban k d s.0 fresh live x b)

module _ {r : RedisServer} (laws : RedisLaws r) (env : Env) (t now : ℕ) (le : now ≤ t)
    (fresh : t < after_seconds now env.refresh_token_expired_in)
    (live : t < after_seconds now env.access_token_expired_in) where
  -- Every session that the loop meets has its access token banned.
  pub All-bans :
      (h : SessionHash) {j : RedisKey} {ks : List RedisKey} (d : r.Store)
      → truthy h.access_token ≡ true
      → All (λ k. is_session k ≡ true) ks
      → Has j ks
      → hgetall r now j d ≡ some h
      → r.get t (blacklist h.access_token) (blacklist_all r env now ks d) ≡ some Value.marker
  unfolding blacklist_all
  All-bans h {j} d a s (here {xs}) q =
      All-keep_ban laws env t now le fresh live h.access_token xs _ s.1
        (step_bans laws env t now le j d s.0 fresh live h q a)
  All-bans h {j} d a s (there {x} {xs} m) q = elim (Bool-cases (same_key x j)) [
    | inl e ↦
        let same = (same_key_iff x j).0 e in
        All-keep_ban laws env t now le fresh live h.access_token xs _ s.1
          (step_bans laws env t now le x d s.0 fresh live h (rw same q) a)
    | inr e ↦
        All-bans h (blacklist_and_delete r env now x d) a s.1 m
          (rw (get-step_other laws env now now (omega arith) x d j (All-has _ s.1 m) e) q)
  ]
