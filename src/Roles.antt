-- ===== src/Roles.antt =====
-- The providers of src/modules/roles/providers on the template methods of `Base`. `caller` is the id
-- of the request's user.
pub mod Discovery
pub mod Sync
pub mod Reserved
pub mod Names
use nestjs_template.Common.{
  ℕ, String, Bool, true, false, not, ◌&&◌, ◌||◌, Option, none, some, or_else, merged, truthy_option,
  ◌==◌, ◌===◌, is_some, Action, pure, throw_if, when, gets, ◌>>=◌, ◌>>◌, http, role_not_found,
  role_protected, role_name_exists, entity_not_archived,
}
use nestjs_template.Redis.{RedisServer}
use nestjs_template.State.{
  Env, World, Role, log_user, role_created, role_updated, role_deleted, role_restored,
}
use nestjs_template.State.Tables.{roles}
use nestjs_template.Text.{to_lower}
use nestjs_template.Base.Repository.{find_one}
use nestjs_template.Base.Providers.{
  skip, find_one_or_throw, create_provider, update_provider, delete_provider, restore_provider,
}

-- src/modules/roles/dtos/create-role.dto.ts
pub record CreateRoleDto : Type 0 where
  pub name : String
  pub description : Option String

-- src/modules/roles/dtos/update-role.dto.ts
pub record UpdateRoleDto : Type 0 where
  pub name : Option String
  pub description : Option String

abbrev pub role_by_id : ℕ → Role → Bool
role_by_id id x = x.id == id

-- `{ id, isDeleted: false }`
abbrev pub live_role : ℕ → Role → Bool
live_role id x = x.id == id && not x.is_deleted

abbrev pub new_role : Option ℕ → CreateRoleDto → ℕ → Role
new_role caller dto id = record {
  id = id;
  name = dto.name;
  description = dto.description;
  created_by = caller;
  updated_by = caller;
  is_deleted = false;
  deleted_at = none;
  deleted_by = none;
}

abbrev pub change_role : Option ℕ → UpdateRoleDto → Role → Role
change_role caller dto x = record x {
  name = or_else dto.name x.name;
  description = merged dto.description x.description;
  updated_by = merged caller x.updated_by;
}

abbrev pub soft_remove_role : ℕ → ℕ → Role → Role
soft_remove_role now by x = record x {
  is_deleted = true;
  deleted_at = some now;
  deleted_by = some by;
}

abbrev pub undelete_role : Role → Role
undelete_role x = record x { is_deleted = false; deleted_at = none; deleted_by = none }

-- `['user', 'admin'].includes(role.name.toLowerCase())`
unfoldable pub is_reserved : Role → Bool
is_reserved x = to_lower x.name === "user" || to_lower x.name === "admin"

module _ {r : RedisServer} (env : Env) (caller : Option ℕ) where
  -- `CreateRoleProvider.beforeCreate`: `findOne` throws where there is no such role.
  unfoldable pub check_new_role : CreateRoleDto → Action (World r) (Unit {0})
  check_new_role dto = do
    find_one_or_throw (roles env) role_not_found (λ x. env.ilike dto.name x.name)
    pure tt

  -- `CreateRoleProvider.execute`
  unfoldable pub create_role : CreateRoleDto → Action (World r) Role
  create_role =
      create_provider (roles env) role_not_found check_new_role (new_role caller)
        (λ x. log_user role_created caller)

  -- `UpdateRoleProvider.beforeUpdate`
  unfoldable pub check_role_name : Role → UpdateRoleDto → Action (World r) (Unit {0})
  check_role_name entity dto = when (truthy_option dto.name) (do
    clash ←
        find_one (roles env)
          (λ x. env.ilike (or_else dto.name "") x.name && not (x.id == entity.id))
    throw_if (is_some clash) (http 409 role_name_exists))

  -- `UpdateRoleProvider.execute`
  unfoldable pub update_role : (Role → Bool) → UpdateRoleDto → Action (World r) Role
  update_role =
      update_provider (roles env) role_not_found (λ x. x.is_deleted) check_role_name
        (change_role caller) (λ x dto. log_user role_updated caller)

  -- `DeleteRoleProvider.execute`; `user_id` is the deleting user of the call.
  unfoldable pub delete_role : (Role → Bool) → ℕ → Bool → Action (World r) (Unit {0})
  delete_role where_ user_id force w =
      delete_provider (roles env) role_not_found
        (λ x. throw_if (is_reserved x) (http 403 role_protected)) (soft_remove_role w.now user_id)
        (λ x _. log_user role_deleted caller) where_ force w

  -- `RestoreRoleProvider.execute`
  unfoldable pub restore_role : (Role → Bool) → Action (World r) Role
  restore_role =
      restore_provider (roles env) role_not_found entity_not_archived (λ x. x.is_deleted) skip
        undelete_role (λ x. log_user role_restored caller)
