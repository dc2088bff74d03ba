-- ===== src/Auth/Passwords/Recent.antt =====
-- A password that was just stored is found in the history.
use nestjs_template.Common.{
  ℕ, suc, ◌≤◌, ◌≡◌, ◌≢◌, refl, true, not, ◌&&◌, Bool, String, List, [], ◌∷◌, ◌++◌, select, take,
  All, ◌==◌, ==_refl, err, http, arith, password_previously_used,
}
use nestjs_template.Redis.{RedisServer}
use nestjs_template.Hash.{create_hash}
use nestjs_template.Hash.RoundTrip.{NoColon, verify-create_hash}
use nestjs_template.State.{World, Env, PasswordHistory}
use nestjs_template.Auth.Passwords.{
  insert_newest, by_newest, newest, listed, trim_history, save_password_history,
  check_password_history,
}

-- No row of the user is younger.
abbrev pub Past : ℕ → ℕ → List PasswordHistory → Type 0
Past u now = All (λ k. k.user_id ≡ u → k.created_at ≤ now)

Past-select :
    (u now : ℕ) (q : PasswordHistory → Bool) (ks : List PasswordHistory)
    → Past u now ks
    → Past u now (select q ks)
Past-select u now q [] h = tt
Past-select u now q (k ∷ ks) (a, h) = ground (arith, Past-select u now q ks h, a)

select_snoc :
    (q : PasswordHistory → Bool) (h : PasswordHistory) (ks : List PasswordHistory)
    → q h ≡ true
    → select q (ks ++ h ∷ []) ≡ select q ks ++ h ∷ []
select_snoc q h [] e = rw e refl
select_snoc q h (k ∷ ks) e = ground (arith, select_snoc q h ks e)

module _ (u : ℕ) (h : PasswordHistory) where
  abbrev own : PasswordHistory → Bool
  own k = k.user_id == u

  -- The row that came last is the newest of the user's.
  by_newest_snoc :
      (ks : List PasswordHistory)
      → Past u h.created_at ks
      → by_newest (select own ks ++ h ∷ []) ≡ h ∷ by_newest (select own ks)
  unfolding by_newest insert_newest
  by_newest_snoc [] p = refl
  by_newest_snoc (k ∷ ks) (a, p) = ground (arith, by_newest_snoc ks p)

  newest_snoc :
      (n : ℕ) (ks : List PasswordHistory)
      → h.user_id ≡ u
      → Past u h.created_at ks
      → newest (suc n) u (ks ++ h ∷ []) ≡ h ∷ take n (by_newest (select own ks))
  newest_snoc n ks e p =
      rw (select_snoc own h ks (rw e (==_refl u))) (rw (by_newest_snoc ks p) refl)

  -- The trimming keeps it.
  trim_snoc :
      (ks : List PasswordHistory)
      → h.user_id ≡ u
      → Past u h.created_at ks
      → (q : PasswordHistory → Bool) × (trim_history u (ks ++ h ∷ []) ≡ select q ks ++ h ∷ [])
  trim_snoc ks e p =
      let q : PasswordHistory → Bool =
        λ k. not (k.user_id == u && not (listed (newest 5 u (ks ++ h ∷ [])) k)) in
      let kept : q h ≡ true = rw (newest_snoc 4 ks e p) (rw (==_refl h.id) (ground arith)) in
      (q, select_snoc q h ks kept)

-- After a password was stored, a check of the same password is refused, whatever else the history
-- holds. No row of the user is younger than the clock, the salt holds no colon, and the derived key
-- is not empty.
pub check-save_password_history :
    {r : RedisServer} (env : Env) (w : World r) (u : ℕ) (salt password : String)
    → Past u w.now w.password_histories
    → NoColon salt
    → env.scrypt password salt ≢ ""
    → (check_password_history env u password
        (save_password_history u (create_hash env.scrypt salt password) w).1).0
      ≡ err (http 422 password_previously_used)
unfolding check_password_history save_password_history
check-save_password_history env w u salt password past plain derived =
    let h : PasswordHistory = record {
      id = w.next_id;
      user_id = u;
      password_hash = create_hash env.scrypt salt password;
      created_at = w.now;
    } in
    let (q, trimmed) = trim_snoc u h w.password_histories refl past in
    let fits = (verify-create_hash env.scrypt salt password password plain derived).1 refl in
    rw trimmed (
      rw
        (newest_snoc u h 4 (select q w.password_histories) refl
          (Past-select u w.now q w.password_histories past))
        (rw fits refl))
