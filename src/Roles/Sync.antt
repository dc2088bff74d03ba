-- ===== src/Roles/Sync.antt =====
-- src/modules/roles/providers/sync-admin-permissions.provider.ts
pub mod Kept
use nestjs_template.Common.{
  ℕ, String, Bool, not, ◌&&◌, Option, some, List, [], ◌∷◌, map, select, length, ◌===◌, Action, pure,
  ◌>>=◌, ◌>>◌, role_not_found,
}
use nestjs_template.Redis.{RedisServer}
use nestjs_template.State.{Env, World, Role, Permission, log_user, admin_permissions_synced}
use nestjs_template.State.Tables.{roles}
use nestjs_template.Base.Providers.{find_one_or_throw}
use nestjs_template.Permissions.Manage.{
  member_text, find_all_permissions, bulk_delete_permissions, upsert_permissions,
}
use nestjs_template.Permissions.Assign.{assign_role_permissions}
use nestjs_template.Roles.Discovery.{Item, Controller, discover_permission_keys, has_key}

-- `PROTECTED_PERMISSION_KEYS`
abbrev pub protected_permission_keys : List String
protected_permission_keys =
    "roles:create" ∷ "roles:read" ∷ "roles:update" ∷ "roles:delete" ∷ "roles:restore"
    ∷ "roles:manage-permissions" ∷ "users:create" ∷ "users:read" ∷ "users:update" ∷ "users:delete"
    ∷ "users:restore" ∷ []

-- `{ name: UserRole.Admin, isDeleted: false }`
abbrev pub is_admin_role : Role → Bool
is_admin_role x = x.name === "Admin" && not x.is_deleted

abbrev pub is_orphan : List Item → Permission → Bool
is_orphan discovered p =
    not (has_key discovered p.key) && not (member_text protected_permission_keys p.key)

pub record SyncResult : Type 0 where
  pub total_discovered : ℕ
  pub created : ℕ
  pub assigned : ℕ
  pub removed : ℕ

module _ {r : RedisServer} (env : Env) (caller : Option ℕ) where
  -- `SyncAdminPermissionsProvider.execute` on the discovered permissions. `bulkDeletePermissions` is
  -- not called without orphans, and answers 0 for none of them.
  unfoldable pub sync_items : List Item → ℕ → Action (World r) SyncResult
  sync_items discovered admin = do
    upserted ← upsert_permissions discovered admin
    admin_role ← find_one_or_throw (roles env) role_not_found is_admin_role
    all_permissions ← find_all_permissions
    let orphaned_ids = map (λ p. p.id) (select (is_orphan discovered) all_permissions)
    removed ← bulk_delete_permissions orphaned_ids admin
    assigned ← assign_role_permissions caller admin_role.id upserted.permission_ids
    log_user admin_permissions_synced (some admin)
    pure (record {
      total_discovered = length discovered;
      created = upserted.created;
      assigned = length assigned;
      removed = removed;
    })

  unfoldable pub sync_admin_permissions : List Controller → ℕ → Action (World r) SyncResult
  sync_admin_permissions controllers = sync_items (discover_permission_keys controllers)
