-- ===== src/Permissions/Manage/Bulk.antt =====
-- What `BulkDeletePermissionsProvider` leaves in the tables.
use nestjs_template.Common.{
  ℕ, ◌≡◌, sym, refl, ap, Bool, true, not, none, some, List, [], ◌∷◌, select, member, length, ok,
  arith,
}
use nestjs_template.Redis.{RedisServer}
use nestjs_template.State.{
  World, RolePermission, role_permissions_removed, permissions_bulk_deleted, Permission,
}
use nestjs_template.State.Tables.{permissions, role_permissions}
use nestjs_template.Base.Repository.{remove_many, cascade_all}
use nestjs_template.Permissions.Manage.{
  removable, bulk_delete_permissions, bulk_remove_role_permissions,
}

select-every : {A : Type 0} (xs : List A) → select (λ _. true) xs ≡ xs
select-every [] = refl
select-every (x ∷ xs) = rw (select-every xs) refl

module _ {r : RedisServer} (admin : ℕ) where
  cascade_all-permissions :
      (ps : List Permission) (w : World r)
      → (cascade_all permissions ps w).permissions ≡ w.permissions
  unfolding cascade_all
  cascade_all-permissions [] w = refl
  cascade_all-permissions (p ∷ ps) w = cascade_all-permissions ps ((permissions).cascade p w)

  cascade_all-roles :
      (ps : List Permission) (w : World r) → (cascade_all permissions ps w).roles ≡ w.roles
  unfolding cascade_all
  cascade_all-roles [] w = refl
  cascade_all-roles (p ∷ ps) w = cascade_all-roles ps ((permissions).cascade p w)

  cascade_all-grants :
      (gs : List RolePermission) (w : World r) → cascade_all role_permissions gs w ≡ w
  unfolding cascade_all
  cascade_all-grants [] w = refl
  cascade_all-grants (g ∷ gs) w = cascade_all-grants gs w

  remove_grants_eq :
      (q : RolePermission → Bool) (w : World r)
      → remove_many role_permissions q w ≡ (
        ok (select q w.role_permissions),
        record w { role_permissions = select (λ g. not (q g)) w.role_permissions },
      )
  unfolding remove_many
  remove_grants_eq q w =
      ap (λ v. (ok (select q w.role_permissions), v))
        (cascade_all-grants (select q w.role_permissions) _)

  abbrev without : (Permission → Bool) → World r → World r
  without q w =
      cascade_all permissions (select q w.permissions)
        (record w { permissions = select (λ p. not (q p)) w.permissions })

  remove_permissions_eq :
      (q : Permission → Bool) (w : World r)
      → remove_many permissions q w ≡ (ok (select q w.permissions), without q w)
  unfolding remove_many
  remove_permissions_eq q w = refl

  abbrev bulk_deleted : ℕ → List ℕ → World r → World r
  bulk_deleted id ids w =
      let v = record w {
        role_permissions =
            select (λ g. not (removable none (some (id ∷ ids)) g)) w.role_permissions;
        activity = record { action = role_permissions_removed; user_id = some admin } ∷ w.activity;
      } in
      let t = without (λ p. member (id ∷ ids) p.id) v in
      record t {
        activity = record { action = permissions_bulk_deleted; user_id = some admin } ∷ t.activity;
      }

  bulk_delete_permissions_eq :
      (id : ℕ) (ids : List ℕ) (w : World r)
      → bulk_delete_permissions (id ∷ ids) admin w
        ≡ (ok (length (select (λ p. member (id ∷ ids) p.id) w.permissions)), bulk_deleted id ids w)
  unfolding bulk_delete_permissions bulk_remove_role_permissions
  bulk_delete_permissions_eq id ids w = ground (
    arith,
    remove_grants_eq (removable none (some (id ∷ ids))) w,
    remove_permissions_eq (λ p. member (id ∷ ids) p.id)
        (record w {
          role_permissions =
              select (λ g. not (removable none (some (id ∷ ids)) g)) w.role_permissions;
          activity =
              record { action = role_permissions_removed; user_id = some admin } ∷ w.activity;
        }),
  )

  abbrev rows_deleted : ℕ → List ℕ → World r → World r
  rows_deleted id ids w = record w {
    permissions = select (λ p. not (member (id ∷ ids) p.id)) w.permissions;
    role_permissions = select (λ g. not (removable none (some (id ∷ ids)) g)) w.role_permissions;
    activity = record { action = role_permissions_removed; user_id = some admin } ∷ w.activity;
  }

  -- A deletion in bulk always returns, and leaves the permissions with other ids, and the roles.
  pub bulk_delete_permissions-kept :
      (ids : List ℕ) (w : World r)
      → (n : ℕ) × (u : World r) × (bulk_delete_permissions ids admin w ≡ (ok n, u))
        × (u.permissions ≡ select (λ p. not (member ids p.id)) w.permissions)
        × (u.roles ≡ w.roles)
  unfolding bulk_delete_permissions
  bulk_delete_permissions-kept [] w = (0, w, refl, sym (select-every w.permissions), refl)
  bulk_delete_permissions-kept (id ∷ ids) w =
      let deleted = select (λ p. member (id ∷ ids) p.id) w.permissions in
      (
        length deleted,
        bulk_deleted id ids w,
        bulk_delete_permissions_eq id ids w,
        cascade_all-permissions deleted (rows_deleted id ids w),
        cascade_all-roles deleted (rows_deleted id ids w),
      )
