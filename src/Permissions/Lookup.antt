-- ===== src/Permissions/Lookup.antt =====
-- The permissions of a role: find-permission-keys-by-role.provider.ts, list-role-permissions.provider.ts
-- and `PermissionService.findPermissionKeys`.
use nestjs_template.Common.{
  ℕ, String, Bool, ◌&&◌, Option, none, some, List, [], ◌∷◌, ◌++◌, map, select, ◌==◌, truthy_number,
  if◌then◌else◌, Action, ok,
}
use nestjs_template.Redis.{RedisServer}
use nestjs_template.State.{World, Permission, RolePermission}

abbrev pub links : ℕ → ℕ → RolePermission → Bool
links role p rp = rp.permission_id == p && rp.role_id == role

-- `FROM permissions p INNER JOIN role_permissions rp … WHERE rp.role_id = $1`: a row for each pair.
unfoldable pub role_permissions_join : ℕ → List RolePermission → List Permission → List Permission
role_permissions_join role rps [] = []
role_permissions_join role rps (p ∷ ps) =
    map (λ _. p) (select (links role p.id) rps) ++ role_permissions_join role rps ps

module _ {r : RedisServer} where
  -- `ListRolePermissionsProvider.execute`
  unfoldable pub list_role_permissions : ℕ → Action (World r) (List Permission)
  list_role_permissions role w =
      (ok (role_permissions_join role w.role_permissions w.permissions), w)

  -- `PermissionService.findPermissionKeys`: no role has no permissions.
  unfoldable pub find_permission_keys : Option ℕ → Action (World r) (List String)
  find_permission_keys none w = (ok [], w)
  find_permission_keys (some role) w = (
    ok (
        if truthy_number role
        then map (λ p. p.key) (role_permissions_join role w.role_permissions w.permissions)
        else []),
    w,
  )
