-- ===== src/Permissions/Manage.antt =====
-- The permissions themselves: create-permission, update-permission, delete-permission,
-- upsert-permission, find-all-permissions and bulk-delete-permissions under
-- src/modules/permissions/providers. `caller` is the id of the request's user.
pub mod Rows
pub mod Bulk
pub mod System
use nestjs_template.Common.{
  ℕ, String, Bool, true, false, not, ◌&&◌, ◌||◌, Option, none, some, or_else, merged, truthy_option,
  ◌==◌, ◌===◌, is_some, List, [], ◌∷◌, ◌++◌, map, any, select, member, length, Action, pure,
  throw_if, when, gets, ◌>>=◌, ◌>>◌, http, permission_not_found, permission_protected,
  permission_key_exists,
}
use nestjs_template.Redis.{RedisServer}
use nestjs_template.State.{
  World, Permission, RolePermission, log_user, permission_created, permission_updated,
  permission_deleted, role_permissions_removed, permissions_bulk_deleted,
}
use nestjs_template.State.Tables.{permissions, role_permissions}
use nestjs_template.Text.{starts_with}
use nestjs_template.Roles.Discovery.{Item}
use nestjs_template.Base.Repository.{find_one, find_many, create_many, remove_many}
use nestjs_template.Base.Providers.{create_provider, update_provider, delete_provider}

-- src/modules/permissions/dtos/create-permission.dto.ts and update-permission.dto.ts
pub record CreatePermissionDto : Type 0 where
  pub name : String
  pub key : String
  pub description : Option String

pub record UpdatePermissionDto : Type 0 where
  pub name : Option String
  pub key : Option String
  pub description : Option String

abbrev pub by_key : String → Permission → Bool
by_key key p = p.key === key

-- `list.includes(t)` and `set.has(t)` on texts
abbrev pub member_text : List String → String → Bool
member_text ts t = any (λ s. s === t) ts

-- `key.match(/^(roles|users|permissions):/)`
unfoldable pub is_system_key : String → Bool
is_system_key key =
    starts_with "roles:" key || starts_with "users:" key || starts_with "permissions:" key

abbrev pub new_permission : Option ℕ → CreatePermissionDto → ℕ → Permission
new_permission caller dto id = record {
  id = id;
  name = dto.name;
  key = dto.key;
  description = dto.description;
  created_by = caller;
  updated_by = caller;
}

abbrev pub change_permission : Option ℕ → UpdatePermissionDto → Permission → Permission
change_permission caller dto p = record p {
  name = or_else dto.name p.name;
  key = or_else dto.key p.key;
  description = merged dto.description p.description;
  updated_by = merged caller p.updated_by;
}

-- A row that the synchronisation makes.
abbrev pub synced_permission : ℕ → Item → ℕ → Permission
synced_permission admin item id = record {
  id = id;
  name = item.name;
  key = item.key;
  description = some "Auto-synced from route metadata";
  created_by = some admin;
  updated_by = some admin;
}

-- The answer of `UpsertPermissionProvider`.
pub record Upserted : Type 0 where
  pub permission_ids : List ℕ
  pub created : ℕ

module _ {r : RedisServer} (caller : Option ℕ) where
  -- `CreatePermissionProvider.execute`
  unfoldable pub check_new_permission : CreatePermissionDto → Action (World r) (Unit {0})
  check_new_permission dto = do
    existing ← find_one permissions (by_key dto.key)
    throw_if (is_some existing) (http 409 permission_key_exists)

  unfoldable pub create_permission : CreatePermissionDto → Action (World r) Permission
  create_permission =
      create_provider permissions permission_not_found check_new_permission (new_permission caller)
        (λ p. log_user permission_created caller)

  -- `UpdatePermissionProvider.execute`
  unfoldable pub check_permission_key :
      Permission → UpdatePermissionDto → Action (World r) (Unit {0})
  check_permission_key entity dto = do
    throw_if (is_system_key entity.key) (http 403 permission_protected)
    when (truthy_option dto.key) (do
      clash ← find_one permissions (λ p. p.key === or_else dto.key "" && not (p.id == entity.id))
      throw_if (is_some clash) (http 409 permission_key_exists))

  unfoldable pub update_permission :
      (Permission → Bool) → UpdatePermissionDto → Action (World r) Permission
  update_permission =
      update_provider permissions permission_not_found (λ p. false) check_permission_key
        (change_permission caller) (λ p dto. log_user permission_updated caller)

  -- `PermissionService.remove`: always with `force`, so nothing is removed softly.
  unfoldable pub delete_permission : (Permission → Bool) → Action (World r) (Unit {0})
  delete_permission where_ =
      delete_provider permissions permission_not_found
        (λ p. throw_if (is_system_key p.key) (http 403 permission_protected)) (λ p. p)
        (λ p _. log_user permission_deleted caller) where_ true

-- The condition of `BulkRemoveRolePermissionsProvider`: what is not given is no condition.
abbrev pub removable : Option ℕ → Option (List ℕ) → RolePermission → Bool
removable role ids g =
    elim role [ none ↦ true | some n ↦ g.role_id == n ]
    && elim ids [ none ↦ true | some ns ↦ member ns g.permission_id ]

module _ {r : RedisServer} where
  -- `FindAllPermissionsProvider.execute`
  abbrev pub find_all_permissions : Action (World r) (List Permission)
  find_all_permissions = gets (λ w. w.permissions)

  unfoldable pub bulk_remove_role_permissions : Option ℕ → Option (List ℕ) → ℕ → Action (World r) ℕ
  bulk_remove_role_permissions role ids admin = do
    removed ← remove_many role_permissions (removable role ids)
    log_user role_permissions_removed (some admin)
    pure (length removed)

  -- `BulkDeletePermissionsProvider.execute`
  unfoldable pub bulk_delete_permissions : List ℕ → ℕ → Action (World r) ℕ
  bulk_delete_permissions [] admin = pure 0
  bulk_delete_permissions (id ∷ ids) admin = do
    bulk_remove_role_permissions none (some (id ∷ ids)) admin
    deleted ← remove_many permissions (λ p. member (id ∷ ids) p.id)
    log_user permissions_bulk_deleted (some admin)
    pure (length deleted)

  -- `UpsertPermissionProvider.execute`
  unfoldable pub upsert_permissions : List Item → ℕ → Action (World r) Upserted
  upsert_permissions [] admin = pure (record { permission_ids = []; created = 0 })
  upsert_permissions (item ∷ items) admin = do
    let keys = map (λ i. i.key) (item ∷ items)
    existing ← find_many permissions (λ p. member_text keys p.key)
    let known = map (λ p. p.key) existing
    let to_create = select (λ i. not (member_text known i.key)) (item ∷ items)
    new ← create_many permissions (map (synced_permission admin) to_create)
    pure (record {
      permission_ids = map (λ p. p.id) existing ++ map (λ p. p.id) new;
      created = length new;
    })
