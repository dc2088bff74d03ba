-- ===== src/Roles/Sync/Kept.antt =====
-- What the synchronisation of the administrator role leaves.
use nestjs_template.Common.{
  some-inverse, ℕ, String, ◌≡◌, ◌∙◌, sym, refl, ap, true, false, not, Option, none, some, List, [],
  ◌∷◌, map, any, select, find, length, member, All, All-of_Has, All-map, Has, any-Has, select-Has,
  Has-select, select-true, ok, err, http, Action, pure, ◌>>=◌, ◌>>◌, bind-inverse, bind-ok,
  ok-inverse, arith, ==_refl, ==_iff, Bool-cases, inl, inr, role_not_found, Option-cases, ◌==◌,
}
use mathlib.Core.Path.{subst}
use nestjs_template.Redis.{RedisServer}
use nestjs_template.State.{
  World, Env, Role, Permission, RolePermission, log_user, admin_permissions_synced,
}
use nestjs_template.State.Tables.{roles}
use nestjs_template.Base.Providers.{find_one_or_throw}
use nestjs_template.Permissions.Manage.{Upserted, upsert_permissions, bulk_delete_permissions}
use nestjs_template.Permissions.Manage.Bulk.{bulk_delete_permissions-kept}
use nestjs_template.Permissions.Manage.Rows.{
  Offered, Has-map, member-Has, upsert_permissions-Offered,
}
use nestjs_template.Permissions.Assign.{assign_role_permissions}
use nestjs_template.Permissions.Assign.Granted.{
  is_granted, is_known, is_role, no_member, missing, granted, to_assign, assign-known,
  assign-unknown, member-missing,
}
use nestjs_template.Permissions.Assign.Refinement.{assigned_view}
use nestjs_template.Roles.Discovery.{Item, Controller, discover_permission_keys}
use nestjs_template.Roles.Sync.{
  is_admin_role, is_orphan, SyncResult, sync_items, sync_admin_permissions,
}

-- A role holds the permission of a key.
abbrev pub Holds : {r : RedisServer} → World r → ℕ → String → Type 0
Holds w role key =
    (p : Permission) × Has p w.permissions
    × (p.key ≡ key)
    × (is_granted w.role_permissions role p.id ≡ true)

admin-is_role :
    (xs : List Role) (x : Role) → find is_admin_role xs ≡ some x → is_role xs x.id ≡ true
admin-is_role [] x h = absurd cc
admin-is_role (y ∷ ys) x h = elim (Bool-cases (is_admin_role y)) [
  | inl e ↦ let same : y ≡ x = some-inverse (rw e at h) in rw same (ground (arith, ==_refl x.id))
  | inr e ↦ ground (arith, admin-is_role ys x (rw e at h))
]

module _ {r : RedisServer} (env : Env) (caller : Option ℕ) where
  -- An assignment that returned: all ids are of a permission, and the role has them.
  assign-inverse :
      (role : ℕ) (ids : List ℕ) (w : World r) (rows : List RolePermission) (u : World r)
      → is_role w.roles role ≡ true
      → assign_role_permissions caller role ids w ≡ (ok rows, u)
      → (any (λ _. true) (missing caller role w ids) ≡ false)
        × (granted caller role w (to_assign caller role w ids) ≡ u)
  assign-inverse role ids w rows u there e =
      elim (Bool-cases (any (λ _. true) (missing caller role w ids))) [
        | inl unknown ↦ let no = sym (assign-unknown caller role w ids unknown) ∙ e in absurd cc
        | inr known ↦ (known, (ok-inverse (sym (assign-known caller role w ids there known) ∙ e)).1)
      ]

  role-inverse :
      (w : World r) (role : Role) (u : World r)
      → find_one_or_throw (roles env) role_not_found is_admin_role w ≡ (ok role, u)
      → (find is_admin_role w.roles ≡ some role) × (w ≡ u)
  role-inverse w role u e = elim (Option-cases (find is_admin_role w.roles)) [
    | inl none_found ↦ let no = sym (missing_role none_found) ∙ e in absurd cc
    | inr (x, found) ↦
        let (a, b) = ok-inverse (sym (found_role x found) ∙ e) in (found ∙ ap some a, b)
  ]
    where
      missing_role :
          find is_admin_role w.roles ≡ none
          → find_one_or_throw (roles env) role_not_found is_admin_role w
            ≡ (err (http 404 role_not_found), w)
      missing_role h = ground (arith, h)

      found_role :
          (x : Role)
          → find is_admin_role w.roles ≡ some x
          → find_one_or_throw (roles env) role_not_found is_admin_role w ≡ (ok x, w)
      found_role x h = ground (arith, h)

  module _ (discovered : List Item) (admin : ℕ) (up : Upserted) where
    -- `sync_items` after its deletions, and after its search of the role.
    abbrev report : ℕ → List RolePermission → Action (World r) SyncResult
    report removed assigned = do
      log_user admin_permissions_synced (some admin)
      pure (record {
        total_discovered = length discovered;
        created = up.created;
        assigned = length assigned;
        removed = removed;
      })

    abbrev grant_rest : Role → ℕ → Action (World r) SyncResult
    grant_rest role removed = do
      assigned ← assign_role_permissions caller role.id up.permission_ids
      report removed assigned

    abbrev orphaned_ids : World r → List ℕ
    orphaned_ids w = map (λ p. p.id) (select (is_orphan discovered) w.permissions)

    abbrev prune : Role → Action (World r) SyncResult
    prune role w = (bulk_delete_permissions (orphaned_ids w) admin >>= grant_rest role) w

    orphan-gone :
        (w : World r) (p : Permission)
        → Has p (select (λ p. not (member (orphaned_ids w) p.id)) w.permissions)
        → is_orphan discovered p ≡ false
    orphan-gone w p m = elim (Bool-cases (is_orphan discovered p)) [
      | inr kept ↦ kept
      | inl orphan ↦
          let listed : member (orphaned_ids w) p.id ≡ true = member-Has (
            Has-map (λ p. p.id)
              (Has-select (is_orphan discovered) orphan (select-Has _ w.permissions m))) in
          let unlisted = select-true (λ p. not (member (orphaned_ids w) p.id)) w.permissions m in
          absurd (ground (arith, listed, unlisted))
    ]

    -- A permission of the answer that is known after the deletions was not deleted.
    survives :
        (role : ℕ) (w t : World r) (p : Permission)
        → t.permissions ≡ select (λ p. not (member (orphaned_ids w) p.id)) w.permissions
        → any (λ _. true) (missing caller role t up.permission_ids) ≡ false
        → member up.permission_ids p.id ≡ true
        → member (orphaned_ids w) p.id ≡ false
    survives role w t p left known offer =
        let absent = no_member (missing caller role t up.permission_ids) p.id known in
        let there_still : is_known t.permissions p.id ≡ true =
          ground (arith, absent, offer, member-missing caller role t up.permission_ids p.id) in
        let (q, m, same) = any-Has (λ q. q.id == p.id) _ (rw left at there_still) in
        let unlisted = select-true (λ p. not (member (orphaned_ids w) p.id)) w.permissions m in
        let id = (==_iff q.id p.id).0 same in
        let unlisted' = rw id at unlisted in ground (arith, unlisted')

    prune-kept :
        (role : Role) (w : World r) (res : SyncResult) (u : World r)
        → is_role w.roles role.id ≡ true
        → All (λ i. Offered w up.permission_ids i.key) discovered
        → prune role w ≡ (ok res, u)
        → All (λ p. is_orphan discovered p ≡ false) u.permissions
          × All (λ i. Holds u role.id i.key) discovered
    prune-kept role w res u there offers e =
        let (n, t, deleted, left, roles_left) =
          bulk_delete_permissions-kept admin (orphaned_ids w) w in
        let e1 =
          sym (bind-ok (bulk_delete_permissions (orphaned_ids w) admin) (grant_rest role) deleted)
          ∙ e in
        let (rows, v, assigned, e2) =
          bind-inverse (assign_role_permissions caller role.id up.permission_ids) (report n) res t u
            e1 in
        let (known, is_v) =
          assign-inverse role.id up.permission_ids t rows v (rw roles_left there) assigned in
        let is_u = (ok-inverse e2).1 in
        let perms : u.permissions ≡ select (λ p. not (member (orphaned_ids w) p.id)) w.permissions =
          ap (λ x. x.permissions) (sym is_u) ∙ ap (λ x. x.permissions) (sym is_v) ∙ left in
        let grants : u.role_permissions
            ≡ (granted caller role.id t
                (to_assign caller role.id t up.permission_ids)).role_permissions =
          ap (λ x. x.role_permissions) (sym is_u) ∙ ap (λ x. x.role_permissions) (sym is_v) in
        (
          rw perms (All-of_Has _ _ (orphan-gone w)),
          All-map _ _ discovered
              (λ i (p, m, key, offer). (
                p,
                rw perms (Has-select _ (rw (survives role.id w t p left known offer) refl) m),
                key,
                rw grants (
                    assigned_view caller role.id up.permission_ids t role.id p.id
                    ∙ ground (arith, offer, ==_refl role.id)),
              ))
              offers,
        )

  -- A synchronisation that succeeds leaves only permissions that a route asks for or that are
  -- protected, and the administrator role, by name and not archived, then has the permission of
  -- every key that a route asks for.
  pub sync_admin_permissions-kept :
      (controllers : List Controller) (admin : ℕ) (w : World r) (role : Role) (res : SyncResult)
      → find is_admin_role w.roles ≡ some role
      → (sync_admin_permissions env caller controllers admin w).0 ≡ ok res
      → All
          (λ p. is_orphan (discover_permission_keys controllers) p ≡ false)
          (sync_admin_permissions env caller controllers admin w).1.permissions
        × All
            (λ i. Holds (sync_admin_permissions env caller controllers admin w).1 role.id i.key)
            (discover_permission_keys controllers)
  unfolding sync_admin_permissions sync_items
  sync_admin_permissions-kept controllers admin w role res is_role e =
      let discovered = discover_permission_keys controllers in
      let u = (sync_admin_permissions env caller controllers admin w).1 in
      let e0 : sync_admin_permissions env caller controllers admin w ≡ (ok res, u) =
        ap (λ x. (x, u)) e in
      let (up, w1, e1, r1) =
        bind-inverse (upsert_permissions discovered admin)
          (λ up. do
            admin_role ← find_one_or_throw (roles env) role_not_found is_admin_role
            prune discovered admin up admin_role)
          res w u e0 in
      let (x, w2, e2, r2) =
        bind-inverse (find_one_or_throw (roles env) role_not_found is_admin_role)
          (prune discovered admin up) res w1 u r1 in
      let (is_x, is_w2) = role-inverse w1 x w2 e2 in
      let (offers, roles_same) = upsert_permissions-Offered admin discovered w up w1 e1 in
      let same : x ≡ role =
        some-inverse (sym is_x ∙ ap (λ rows. find is_admin_role rows) roles_same ∙ is_role) in
      let there = admin-is_role w1.roles x is_x in
      let (clean, held) =
        prune-kept discovered admin up x w1 res u there offers (rw (← is_w2) at r2) in
      (clean, subst (λ y. All (λ i. Holds u y.id i.key) discovered) same held)
