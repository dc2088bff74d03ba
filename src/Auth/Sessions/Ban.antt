-- ===== src/Auth/Sessions/Ban.antt =====
-- What banning a token and dropping a session change in the store.
use nestjs_template.Common.{
  ℕ, String, ◌≤◌, ◌<◌, ◌≡◌, true, false, none, some, if◌then◌else◌, Bool-cases, inl, inr, arith,
  truthy, truthy_number, after_seconds, lt→ltb, ltb,
}
use nestjs_template.Redis.{
  RedisServer, RedisLaws, RedisKey, blacklist, same_key, same_key_refl, Value, set,
}
use nestjs_template.Auth.Sessions.{ban}

module _ {r : RedisServer} (laws : RedisLaws r) where
  -- `set` in one equation: the value stays until its time is over, for ever at a time of 0.
  pub get-set :
      (t n : ℕ) (j k : RedisKey) (v : Value) (s : ℕ) (d : r.Store)
      → n ≤ t
      → r.get t j (set r n k v s d) ≡ (
          if same_key k j
          then (if truthy_number s
              then (if ltb t (after_seconds n s) then some v else none)
              else some v)
          else r.get t j d)
  get-set t n j k v s d le = elim (Bool-cases (truthy_number s)) [
    | inl e ↦ rw e (laws.get-put_ex t n j k v s d le)
    | inr e ↦ rw e (laws.get-put t n j k v d le)
  ]

  -- A ban touches no key of another form.
  pub get-ban_ne :
      (t n : ℕ) (j : RedisKey) (token : String) (s : ℕ) (d : r.Store)
      → n ≤ t
      → same_key (blacklist token) j ≡ false
      → r.get t j (ban r n token s d) ≡ r.get t j d
  get-ban_ne t n j token s d le e = elim (Bool-cases (truthy token)) [
    | inl q ↦ rw q (rw (get-set t n j (blacklist token) Value.marker s d le) (rw e))
    | inr q ↦ rw q
  ]

  pub get-ban_self :
      (t n : ℕ) (token : String) (s : ℕ) (d : r.Store)
      → n ≤ t
      → t < after_seconds n s
      → truthy token ≡ true
      → r.get t (blacklist token) (ban r n token s d) ≡ some Value.marker
  get-ban_self t n token s d le lt q = rw q (
      rw (get-set t n (blacklist token) (blacklist token) Value.marker s d le) (
        rw (same_key_refl (blacklist token)) (rw (lt→ltb t (after_seconds n s) lt) (ground arith))))

  -- A token that is banned stays so while the times of later bans run.
  pub get-ban_keep :
      (t n : ℕ) (token other : String) (s : ℕ) (d : r.Store)
      → n ≤ t
      → t < after_seconds n s
      → r.get t (blacklist token) d ≡ some Value.marker
      → r.get t (blacklist token) (ban r n other s d) ≡ some Value.marker
  get-ban_keep t n token other s d le lt h = elim (Bool-cases (truthy other)) [
    | inl q ↦ rw q (
        rw (get-set t n (blacklist token) (blacklist other) Value.marker s d le)
          (rw (h, lt→ltb t (after_seconds n s) lt) (ground arith)))
    | inr q ↦ rw q h
  ]
