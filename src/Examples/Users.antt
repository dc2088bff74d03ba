-- ===== src/Examples/Users.antt =====
-- Examples for users.
use nestjs_template.Common.{none, [], ◌∷◌, true, eq_iff, ◌≡◌, refl, false, some, ok, arith}
use nestjs_template.Users.{by_id, delete_user, restore_user}
use nestjs_template.Users.Restore.{restore-delete_user}
use nestjs_template.Redis.Memory.{memory}
use nestjs_template.State.{World, Role, wait_until}
use nestjs_template.Users.Create.{CreateUserDto, create_account}
use nestjs_template.Users.Create.Accepted.{
  account, with_account, signin_dto, check_credentials-create_account,
}
use nestjs_template.Auth.Signin.{check_credentials}
use nestjs_template.Examples.{a_world, ann, an_env, a_request}

-- User 1 deletes Ann and restores her.
restore-delete_user_example :
    let deleted = delete_user (some 1) (by_id 7) 1 false a_world in
    let restored = restore_user (some 1) (by_id 7) deleted.1 in
    (deleted.0 ≡ ok tt) × (restored.0 ≡ ok ann) × (restored.1.users ≡ a_world.users)
restore-delete_user_example =
    restore-delete_user a_world ann 1
      (record { known = refl; present = refl; no_time = refl; no_user = refl }) (omega arith)

abbrev a_user_role : Role
a_user_role = record {
  id = 2;
  name = "User";
  description = none;
  created_by = none;
  updated_by = none;
  is_deleted = false;
  deleted_at = none;
  deleted_by = none;
}

abbrev with_user_role : World memory
with_user_role = record a_world { roles = a_user_role ∷ [] }

-- Cleo gets an account without a password of her own.
abbrev cleo_dto : CreateUserDto
cleo_dto = record {
  name = "Cleo";
  email = "cleo@example.org";
  role_id = 2;
  password = none;
  send_email = true;
}

check_credentials-create_account_example :
    (create_account an_env cleo_dto with_user_role
      ≡ (ok (account an_env cleo_dto with_user_role), with_account an_env cleo_dto with_user_role))
    × (check_credentials an_env a_request
          (signin_dto an_env cleo_dto with_user_role)
          (wait_until 9000 (with_account an_env cleo_dto with_user_role))
        ≡ (
          ok (account an_env cleo_dto with_user_role),
          wait_until 9000 (with_account an_env cleo_dto with_user_role),
        ))
check_credentials-create_account_example =
    check_credentials-create_account an_env cleo_dto with_user_role a_request 9000 a_user_role refl
      refl (ground arith, (ground arith, (ground arith, (ground arith, tt))))
      (ground (arith, eq_iff "0a1b0a1b" ""))
