-- ===== src/Permissions/Assign.antt =====
-- The grants of a role: assign-role-permissions, remove-role-permission and
-- find-role-permissions-by-role under src/modules/permissions/providers, and the operations of
-- src/modules/roles/role.service.ts that lead to them.
pub mod Granted
pub mod Duplicates
pub mod Refinement
use nestjs_template.Common.{
  ℕ, Bool, true, not, ◌&&◌, Option, ◌==◌, List, [], ◌∷◌, map, any, select, member, unique, Action,
  pure, throw_if, ◌>>=◌, ◌>>◌, http, permission_not_found, role_permission_not_found,
  role_not_found,
}
use nestjs_template.Redis.{RedisServer}
use nestjs_template.State.{
  Env, World, Permission, RolePermission, log_user, role_permissions_assigned,
  role_permission_removed,
}
use nestjs_template.State.Tables.{permissions, role_permissions, roles}
use nestjs_template.Base.Repository.{find_many, create_many}
use nestjs_template.Base.Providers.{find_one_or_throw, delete_provider}
use nestjs_template.Roles.{live_role}
use nestjs_template.Permissions.Lookup.{list_role_permissions}

abbrev pub grant : ℕ → ℕ → ℕ → RolePermission
grant role permission id = record { id = id; role_id = role; permission_id = permission }

abbrev pub is_grant : ℕ → ℕ → RolePermission → Bool
is_grant role permission g = g.role_id == role && g.permission_id == permission

module _ {r : RedisServer} (caller : Option ℕ) where
  -- The ids that the role does not have yet are given to it.
  unfoldable pub grant_missing : ℕ → List ℕ → Action (World r) (List RolePermission)
  grant_missing role [] = pure []
  grant_missing role (id ∷ ids) = do
    assigned ← create_many role_permissions (map (grant role) (id ∷ ids))
    log_user role_permissions_assigned caller
    pure assigned

  -- `AssignRolePermissionsProvider.execute`
  unfoldable pub assign_role_permissions : ℕ → List ℕ → Action (World r) (List RolePermission)
  assign_role_permissions role permission_ids = do
    let unique_ids = unique permission_ids
    found ← find_many permissions (λ p. member unique_ids p.id)
    let missing = select (λ id. not (member (map (λ p. p.id) found) id)) unique_ids
    throw_if (any (λ _. true) missing) (http 404 permission_not_found)
    existing ← find_many role_permissions (λ g. g.role_id == role)
    let to_assign = select (λ id. not (member (map (λ g. g.permission_id) existing) id)) unique_ids
    grant_missing role to_assign

  -- `RemoveRolePermissionProvider.execute`, called with `force`.
  unfoldable pub remove_role_permission : ℕ → ℕ → Action (World r) (Unit {0})
  remove_role_permission role permission =
      delete_provider role_permissions role_permission_not_found (λ g. pure tt) (λ g. g)
        (λ g _. log_user role_permission_removed caller) (is_grant role permission) true

  -- `RoleService.getPermissions`, `assignPermissions` and `removePermission`
  unfoldable pub get_permissions : Env → ℕ → Action (World r) (List Permission)
  get_permissions env id = do
    role ← find_one_or_throw (roles env) role_not_found (live_role id)
    list_role_permissions role.id

  unfoldable pub assign_permissions : Env → ℕ → List ℕ → Action (World r) (List RolePermission)
  assign_permissions env id permission_ids = do
    role ← find_one_or_throw (roles env) role_not_found (live_role id)
    assign_role_permissions role.id permission_ids

  unfoldable pub remove_permission : Env → ℕ → ℕ → Action (World r) (Unit {0})
  remove_permission env id permission = do
    role ← find_one_or_throw (roles env) role_not_found (live_role id)
    remove_role_permission role.id permission
