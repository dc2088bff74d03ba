-- ===== src/Users/Restore.antt =====
-- A user who is deleted and restored.
use nestjs_template.Common.{
  ℕ, ◌≡◌, ◌≢◌, refl, true, false, Bool, none, some, List, [], ◌∷◌, find, update_first,
  find-update_first, ok, arith, ==_refl,
}
use nestjs_template.Redis.{RedisServer}
use nestjs_template.State.{World, User, profile_deleted, profile_restored}
use nestjs_template.Base.Providers.{delete_provider, restore_provider}
use nestjs_template.Users.{by_id, soft_remove, undelete, delete_user, restore_user}

-- An update of the first row that fits is undone by its inverse.
update_first-inverse :
    {A : Type 0} (p : A → Bool) (f g : A → A) (u : A) (xs : List A)
    → find p xs ≡ some u
    → p (f u) ≡ true
    → g (f u) ≡ u
    → update_first p g (update_first p f xs) ≡ xs
update_first-inverse p f g u [] h a b = cc
update_first-inverse p f g u (x ∷ xs) h a b = ground (arith, update_first-inverse p f g u xs)

-- A row that was never archived.
pub record IsPresent {r : RedisServer} (w : World r) (x : User) : Type 0 where
  pub known : find (by_id x.id) w.users ≡ some x
  pub present : x.is_deleted ≡ false
  pub no_time : x.deleted_at ≡ none
  pub no_user : x.deleted_by ≡ none

module _ {r : RedisServer} (w : World r) (x : User) (caller : ℕ) where
  abbrev pub archived : World r
  archived = record w {
    users = update_first (by_id x.id) (soft_remove w.now caller) w.users;
    activity = record { action = profile_deleted; user_id = some caller } ∷ w.activity;
  }

  delete_user_eq :
      IsPresent w x
      → caller ≢ x.id
      → delete_user (some caller) (by_id x.id) caller false w ≡ (ok tt, archived)
  unfolding delete_user delete_provider
  delete_user_eq h other = ground (arith, h.known)

  restored_same : IsPresent w x → undelete (soft_remove w.now caller x) ≡ x
  restored_same h = ground (arith, h.present, h.no_time, h.no_user)

  restore_user_eq :
      (v : World r)
      → find (by_id x.id) v.users ≡ some (soft_remove w.now caller x)
      → restore_user (some caller) (by_id x.id) v ≡ (
        ok (undelete (soft_remove w.now caller x)),
        record v {
          users = update_first (by_id x.id) undelete v.users;
          activity = record { action = profile_restored; user_id = some caller } ∷ v.activity;
        },
      )
  unfolding restore_user restore_provider
  restore_user_eq v known = ground (arith, known)

  -- Another user's soft deletion of a row that was never archived succeeds, and a restoration then
  -- answers with the row as it was and leaves the table as it was.
  pub restore-delete_user :
      IsPresent w x
      → caller ≢ x.id
      → let deleted = delete_user (some caller) (by_id x.id) caller false w in
        let restored = restore_user (some caller) (by_id x.id) deleted.1 in
        (deleted.0 ≡ ok tt) × (restored.0 ≡ ok x) × (restored.1.users ≡ w.users)
  restore-delete_user h other =
      let e = delete_user_eq h other in
      let found =
        find-update_first (by_id x.id) (by_id x.id) (soft_remove w.now caller) x w.users h.known
          h.known (==_refl x.id) in
      let back = restore_user_eq archived found in
      let same = restored_same h in
      rw e (
        refl,
        rw back (ground (arith, same)),
        rw back (
            update_first-inverse (by_id x.id) (soft_remove w.now caller) undelete x w.users h.known
              (==_refl x.id) same),
      )
