-- ===== src/State/Tables.antt =====
-- The repositories of the entities, over the shared state.
use nestjs_template.Common.{
  not, select, any, ◌&&◌, ◌||◌, Bool, true, false, Option, some, String, ◌==◌, ◌===◌,
}
use nestjs_template.Redis.{RedisServer}
use nestjs_template.State.{
  World, Env, take_id, User, RefreshToken, LoginHistory, PasswordHistory, Role, Permission,
  RolePermission,
}
use nestjs_template.Base.Repository.{Repository}

-- Two texts in a unique column; `NULL` equals nothing.
abbrev same_text : Option String → Option String → Bool
same_text (some a) (some b) = a === b
same_text _ _ = false

module _ {r : RedisServer} where
  abbrev pub users : Repository (World r) User
  users = record {
    rows = λ w. w.users;
    save = λ rows w. record w { users = rows };
    take_id = take_id;
    clashes = λ a b. a.email === b.email || same_text a.google_id b.google_id;
    refers = λ u w. any (λ x. x.id == u.role_id) w.roles;
    restricted = λ _ _. false;
    cascade = λ u w. record w {
      refresh_tokens = select (λ t. not (t.user_id == u.id)) w.refresh_tokens;
      login_histories = select (λ h. not (h.user_id == u.id)) w.login_histories;
      password_histories = select (λ h. not (h.user_id == u.id)) w.password_histories;
    };
  }

  -- The user of a new token, login or former password was read in the request that stores it: the
  -- foreign keys of these three tables always hold.
  -- Token hashes are salted with fresh random bytes: their unique column is not modelled.
  abbrev pub refresh_tokens : Repository (World r) RefreshToken
  refresh_tokens = record {
    rows = λ w. w.refresh_tokens;
    save = λ rows w. record w { refresh_tokens = rows };
    take_id = take_id;
    clashes = λ a b. false;
    refers = λ _ _. true;
    restricted = λ _ _. false;
    cascade = λ _ w. w;
  }

  abbrev pub login_histories : Repository (World r) LoginHistory
  login_histories = record {
    rows = λ w. w.login_histories;
    save = λ rows w. record w { login_histories = rows };
    take_id = take_id;
    clashes = λ a b. false;
    refers = λ _ _. true;
    restricted = λ _ _. false;
    cascade = λ _ w. w;
  }

  abbrev pub password_histories : Repository (World r) PasswordHistory
  password_histories = record {
    rows = λ w. w.password_histories;
    save = λ rows w. record w { password_histories = rows };
    take_id = take_id;
    clashes = λ a b. false;
    refers = λ _ _. true;
    restricted = λ _ _. false;
    cascade = λ _ w. w;
  }

  -- `LOWER(name)` is unique; a role that a user has cannot be deleted.
  abbrev pub roles : Env → Repository (World r) Role
  roles env = record {
    rows = λ w. w.roles;
    save = λ rows w. record w { roles = rows };
    take_id = take_id;
    clashes = λ a b. env.sql_lower a.name === env.sql_lower b.name;
    refers = λ _ _. true;
    restricted = λ x w. any (λ u. u.role_id == x.id) w.users;
    cascade = λ x w. record w {
      role_permissions = select (λ g. not (g.role_id == x.id)) w.role_permissions;
    };
  }

  abbrev pub permissions : Repository (World r) Permission
  permissions = record {
    rows = λ w. w.permissions;
    save = λ rows w. record w { permissions = rows };
    take_id = take_id;
    clashes = λ a b. a.name === b.name || a.key === b.key;
    refers = λ _ _. true;
    restricted = λ _ _. false;
    cascade = λ p w. record w {
      role_permissions = select (λ g. not (g.permission_id == p.id)) w.role_permissions;
    };
  }

  abbrev pub role_permissions : Repository (World r) RolePermission
  role_permissions = record {
    rows = λ w. w.role_permissions;
    save = λ rows w. record w { role_permissions = rows };
    take_id = take_id;
    clashes = λ a b. a.role_id == b.role_id && a.permission_id == b.permission_id;
    refers = λ g w.
        any (λ x. x.id == g.role_id) w.roles && any (λ p. p.id == g.permission_id) w.permissions;
    restricted = λ _ _. false;
    cascade = λ _ w. w;
  }
