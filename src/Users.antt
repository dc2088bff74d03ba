-- ===== src/Users.antt =====
-- The providers of src/modules/users/providers, on the template methods of `Base`. `caller` is the
-- id of the request's user.
pub mod Restore
pub mod Create
use nestjs_template.Common.{
  ℕ, String, Bool, true, false, not, ◌&&◌, ◌||◌, Option, none, some, truthy_option, ◌==◌, ◌===◌,
  or_else, if◌then◌else◌, Action, pure, throw_if, ◌>>=◌, ◌>>◌, user_not_found, email_taken,
  self_delete, self_deactivate, user_already_active, user_already_inactive, entity_not_archived,
  http,
}
use nestjs_template.Redis.{RedisServer}
use nestjs_template.State.{
  World, User, log_user, profile_updated, profile_deleted, profile_restored, status_toggled,
}
use nestjs_template.State.Tables.{users}
use nestjs_template.Base.Repository.{exists}
use nestjs_template.Base.Providers.{
  skip, find_one_or_throw, create_provider, update_provider, delete_provider, restore_provider,
}

abbrev pub by_id : ℕ → User → Bool
by_id id u = u.id == id

abbrev pub by_email : String → User → Bool
by_email email u = u.email === email

-- `NULL` and a missing caller equal no id.
abbrev pub is_caller : Option ℕ → ℕ → Bool
is_caller none id = false
is_caller (some caller) id = id == caller

-- `softRemove` and `restore` of src/common/base/entities/base-soft-delete.entity.ts
abbrev pub soft_remove : ℕ → ℕ → User → User
soft_remove now by u = record u { is_deleted = true; deleted_at = some now; deleted_by = some by }

abbrev pub undelete : User → User
undelete u = record u { is_deleted = false; deleted_at = none; deleted_by = none }

module _ {r : RedisServer} where
  -- `UserService.create`: `CreateUserProvider.execute` with no hooks, the id drawn.
  unfoldable pub create_user : User → Action (World r) User
  unfolding create_provider
  create_user = create_provider users user_not_found skip (λ u id. record u { id = id }) skip

  -- `UpdateUserProvider.beforeUpdate`; `email` is the e-mail of the payload, if it has one.
  abbrev pub check_email : Option String → User → Action (World r) (Unit {0})
  check_email email u =
      if not (truthy_option email) || or_else email "" === u.email then pure tt else do
        taken ← exists users (by_email (or_else email ""))
        throw_if taken (http 409 email_taken)

  -- `UserService.update`: the payload is its e-mail and the fields that it overwrites.
  unfoldable pub update_user : Option String → (User → User) → (User → Bool) → Action (World r) User
  unfolding update_provider
  update_user email set where_ =
      update_provider users user_not_found (λ u. u.is_deleted) (λ u _. check_email email u)
        (λ f u. f u) (λ u _. log_user profile_updated (some u.id)) where_ set

  -- `DeleteUserProvider`; `user_id` is the deleting user of the call, `caller` that of the request.
  unfoldable pub delete_user : Option ℕ → (User → Bool) → ℕ → Bool → Action (World r) (Unit {0})
  unfolding delete_provider
  delete_user caller where_ user_id force w =
      delete_provider users user_not_found
        (λ u. throw_if (is_caller caller u.id) (http 403 self_delete)) (soft_remove w.now user_id)
        (λ u _. log_user profile_deleted caller) where_ force w

  -- `RestoreUserProvider`
  unfoldable pub restore_user : Option ℕ → (User → Bool) → Action (World r) User
  unfolding restore_provider
  restore_user caller where_ =
      restore_provider users user_not_found entity_not_archived (λ u. u.is_deleted) skip undelete
        (λ u. log_user profile_restored caller) where_

  -- `ToggleUserStatusProvider`
  unfoldable pub toggle_user_status : Option ℕ → ℕ → Bool → Action (World r) User
  unfolding update_user
  toggle_user_status caller id is_active = do
    throw_if (is_caller caller id) (http 403 self_deactivate)
    user ← find_one_or_throw users user_not_found (by_id id)
    throw_if (is_active && user.is_active) (http 409 user_already_active)
    throw_if (not is_active && not user.is_active) (http 409 user_already_inactive)
    updated ← update_user none (λ u. record u { is_active = is_active }) (by_id id)
    log_user status_toggled caller
    pure updated
