-- ===== src/Redis/Bulk.antt =====
-- The deletion of a list of keys.
use nestjs_template.Common.{
  ℕ, ◌≡◌, refl, true, false, none, List, [], ◌∷◌, Has, here, there, All, All-of_Has, arith,
}
use nestjs_template.Redis.{
  RedisServer, RedisLaws, RedisKey, same_key, same_key_refl, Pattern, matches, del_all,
}

module _ {r : RedisServer} (laws : RedisLaws r) where
  -- A key that is not there is not there after a deletion.
  pub get-del_all-none :
      (t : ℕ) (j : RedisKey) (ks : List RedisKey) (d : r.Store)
      → r.get t j d ≡ none
      → r.get t j (del_all r ks d) ≡ none
  unfolding del_all
  get-del_all-none t j [] d h = h
  get-del_all-none t j (k ∷ ks) d h =
      get-del_all-none t j ks (r.remove k d) (rw (laws.get-remove t j k d) (ground arith))

  pub get-del_all-Has :
      (t : ℕ) {j : RedisKey} {ks : List RedisKey} (d : r.Store)
      → Has j ks
      → r.get t j (del_all r ks d) ≡ none
  unfolding del_all
  get-del_all-Has t {j} d (here {xs}) =
      get-del_all-none t j xs (r.remove j d) (rw (laws.get-remove t j j d) (rw (same_key_refl j)))
  get-del_all-Has t d (there {x} m) = get-del_all-Has t (r.remove x d) m

  pub get-del_all_other :
      (t : ℕ) (j : RedisKey) (ks : List RedisKey) (d : r.Store)
      → All (λ k. same_key k j ≡ false) ks
      → r.get t j (del_all r ks d) ≡ r.get t j d
  unfolding del_all
  get-del_all_other t j [] d h = refl
  get-del_all_other t j (k ∷ ks) d h =
      rw (get-del_all_other t j ks (r.remove k d) h.1) (rw (laws.get-remove t j k d) (rw h.0))

  -- Every key that a pattern finds fits it.
  pub scan-All :
      (n : ℕ) (p : Pattern) (d : r.Store) → All (λ k. matches r.glob p k ≡ true) (r.scan n p d)
  scan-All n p d = All-of_Has _ (r.scan n p d) (λ k m. laws.scan_sound n p k d m)
