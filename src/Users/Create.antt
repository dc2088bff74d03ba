-- ===== src/Users/Create.antt =====
-- `CreateUserProvider.create` of src/modules/users/providers/create-user.provider.ts: an account that
-- an administrator makes.
pub mod Accepted
use nestjs_template.Common.{
  ℕ, String, Bool, true, false, Option, none, some, Action, pure, throw_if, when, ◌>>=◌, ◌>>◌, http,
  email_taken, role_not_found,
}
use nestjs_template.Redis.{RedisServer}
use nestjs_template.State.{
  World, Env, User, log_user, user_created, send_email, create_user_mail, generate_token,
}
use nestjs_template.State.Tables.{users, roles}
use nestjs_template.Base.Repository.{exists}
use nestjs_template.Base.Providers.{find_one_or_throw}
use nestjs_template.Roles.{live_role}
use nestjs_template.Auth.Passwords.{hash_password}
use nestjs_template.Users.{create_user, by_email}

-- src/modules/users/dtos/create-user.dto.ts
pub record CreateUserDto : Type 0 where
  pub name : String
  pub email : String
  pub role_id : ℕ
  pub password : Option String
  pub send_email : Bool

-- The payload, and the defaults of the columns.
abbrev pub new_account : CreateUserDto → String → User
new_account dto hash = record {
  id = 0;
  role_id = dto.role_id;
  google_id = none;
  email = dto.email;
  password = some hash;
  name = dto.name;
  avatar_url = none;
  email_verified = true;
  email_verified_at = none;
  failed_attempts = 0;
  locked_until = none;
  is_active = true;
  is_deleted = false;
  deleted_at = none;
  deleted_by = none;
}

module _ {r : RedisServer} (env : Env) where
  -- `dto.password ?? randomBytes(8).toString('hex')`
  abbrev pub choose_password : Option String → Action (World r) String
  choose_password none = generate_token env 8
  choose_password (some password) = pure password

  unfoldable pub create_account : CreateUserDto → Action (World r) User
  create_account dto = do
    taken ← exists users (by_email dto.email)
    throw_if taken (http 409 email_taken)
    find_one_or_throw (roles env) role_not_found (live_role dto.role_id)
    password ← choose_password dto.password
    hash ← hash_password env password
    user ← create_user (new_account dto hash)
    log_user user_created (some user.id)
    when dto.send_email (send_email env (create_user_mail user.email password))
    pure user
