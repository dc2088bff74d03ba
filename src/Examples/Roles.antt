-- ===== src/Examples/Roles.antt =====
-- The theorems on roles, grants, lists and errors, applied.
use nestjs_template.Common.{
  ℕ, String, ◌≡◌, refl, true, false, none, some, List, [], ◌∷◌, Has, here, All, unique,
}
use nestjs_template.Redis.Memory.{memory}
use nestjs_template.State.{World, Role, Permission}
use nestjs_template.Text.{to_lower, capitalize}
use nestjs_template.Hibp.Text.{split_colon, trim}
use nestjs_template.Base.Repository.{create_many, remove_many, cascade_all}
use nestjs_template.Permissions.Assign.{assign_role_permissions, grant_missing}
use nestjs_template.Permissions.Assign.Refinement.{
  Change, assign, unassign, Views, is_live, changed_all, apply_all, apply_all-refined,
}
use nestjs_template.Permissions.Assign.Granted.{is_known, is_granted}
use nestjs_template.Permissions.Manage.{
  upsert_permissions, bulk_delete_permissions, bulk_remove_role_permissions,
}
use nestjs_template.Roles.{is_reserved, delete_role, role_by_id}
use nestjs_template.Roles.Reserved.{delete_role_kept}
use nestjs_template.Roles.Discovery.{
  Controller, discover_permission_keys, scan_controllers, scan_handlers, handler_keys, resource_of,
  key_to_name,
}
use nestjs_template.Roles.Sync.{sync_admin_permissions, sync_items, is_orphan}
use nestjs_template.Roles.Sync.Kept.{Holds, sync_admin_permissions-kept}
use nestjs_template.Examples.{an_env, a_world}

abbrev pub a_role : ℕ → String → Role
a_role id name = record {
  id = id;
  name = name;
  description = none;
  created_by = none;
  updated_by = none;
  is_deleted = false;
  deleted_at = none;
  deleted_by = none;
}

abbrev pub a_permission : ℕ → String → Permission
a_permission id key = record {
  id = id;
  name = key;
  key = key;
  description = none;
  created_by = none;
  updated_by = none;
}

-- Two roles, of which the first is the administrator's; one permission is protected, one is stale.
abbrev pub with_roles : World memory
with_roles = record a_world {
  roles = a_role 1 "Admin" ∷ a_role 2 "User" ∷ [];
  permissions = a_permission 10 "users:read" ∷ a_permission 11 "films:read" ∷ [];
  role_permissions = record { id = 20; role_id = 1; permission_id = 10 } ∷ [];
}

abbrev some_changes : List Change
some_changes =
    assign 1 (10 ∷ 11 ∷ 10 ∷ []) ∷ unassign 1 10 ∷ assign 2 (12 ∷ []) ∷ assign 9 (10 ∷ []) ∷ []

apply_all-refined_example :
    Views
      (apply_all an_env (some 7) some_changes with_roles)
      (is_live with_roles.roles)
      (is_known with_roles.permissions)
      (changed_all
        (is_live with_roles.roles)
        (is_known with_roles.permissions)
        some_changes
        (is_granted with_roles.role_permissions))
apply_all-refined_example = apply_all-refined an_env (some 7) some_changes with_roles refl

delete_role_kept_example :
    Has (a_role 1 "Admin") (delete_role an_env (some 7) (role_by_id 2) 7 true with_roles).1.roles
unfolding is_reserved to_lower
delete_role_kept_example =
    delete_role_kept an_env (some 7) (role_by_id 2) 7 true with_roles (a_role 1 "Admin") refl here

-- One controller with an explicit key, a derived one and a skipped handler.
abbrev films : Controller
films = record {
  resolved = true;
  path = some "/films";
  skip = false;
  handlers =
      record {
        is_function = true;
        http_method = some 0;
        skip = false;
        explicit = "films:list" ∷ [];
      }
      ∷ record { is_function = true; http_method = some 3; skip = false; explicit = [] }
      ∷ record { is_function = true; http_method = some 1; skip = true; explicit = [] }
      ∷ [];
}

sync_admin_permissions-kept_example :
    let after = (sync_admin_permissions an_env (some 7) (films ∷ []) 7 with_roles).1 in
    All (λ p. is_orphan (discover_permission_keys (films ∷ [])) p ≡ false) after.permissions
    × All (λ i. Holds after 1 i.key) (discover_permission_keys (films ∷ []))
unfolding sync_admin_permissions sync_items discover_permission_keys scan_controllers scan_handlers
    handler_keys resource_of key_to_name capitalize split_colon trim upsert_permissions
    bulk_delete_permissions bulk_remove_role_permissions create_many remove_many cascade_all
    assign_role_permissions grant_missing unique
sync_admin_permissions-kept_example =
    sync_admin_permissions-kept an_env (some 7) (films ∷ []) 7 with_roles (a_role 1 "Admin")
      (record { total_discovered = 2; created = 2; assigned = 2; removed = 1 }) refl refl
