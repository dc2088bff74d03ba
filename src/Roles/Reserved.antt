-- ===== src/Roles/Reserved.antt =====
-- The roles whose names are reserved, under `DeleteRoleProvider` and `UpdateRoleProvider`.
use nestjs_template.Common.{
  Has-update_first, Has-remove_first, ℕ, String, ◌≡◌, Bool, true, false, Option, none, some, ◌∷◌,
  any, find, Has, update_first, remove_first, ok, err, http, arith, Bool-cases, Option-cases, inl,
  inr, role_not_found, role_protected, foreign_key_violation, ◌==◌,
}
use nestjs_template.Redis.{RedisServer}
use nestjs_template.State.{World, Env, Role, role_deleted, role_updated}
use nestjs_template.State.Tables.{roles}
use nestjs_template.Base.Providers.{delete_provider}
use nestjs_template.Roles.{
  is_reserved, delete_role, soft_remove_role, UpdateRoleDto, role_by_id, change_role,
}

module _ {r : RedisServer} (env : Env) (caller : Option ℕ) (where_ : Role → Bool) (user : ℕ) where
  abbrev deleted_log : World r → World r
  deleted_log w = record w {
    activity = record { action = role_deleted; user_id = caller } ∷ w.activity;
  }

  delete_role-none :
      (force : Bool) (w : World r)
      → find where_ w.roles ≡ none
      → delete_role env caller where_ user force w ≡ (err (http 404 role_not_found), w)
  unfolding delete_role delete_provider
  delete_role-none force w e = ground (arith, e)

  delete_role-reserved :
      (force : Bool) (w : World r) (x : Role)
      → find where_ w.roles ≡ some x
      → is_reserved x ≡ true
      → delete_role env caller where_ user force w ≡ (err (http 403 role_protected), w)
  unfolding delete_role delete_provider
  delete_role-reserved force w x e k = ground (arith, e, k)

  delete_role-soft :
      (w : World r) (x : Role)
      → find where_ w.roles ≡ some x
      → is_reserved x ≡ false
      → delete_role env caller where_ user false w ≡ (
        ok tt,
        deleted_log
            (record w { roles = update_first where_ (soft_remove_role w.now user) w.roles }),
      )
  unfolding delete_role delete_provider
  delete_role-soft w x e k = ground (arith, e, k)

  -- A role that a user has.
  abbrev is_used : World r → Role → Bool
  is_used w x = any (λ u. u.role_id == x.id) w.users

  delete_role-used :
      (w : World r) (x : Role)
      → find where_ w.roles ≡ some x
      → is_reserved x ≡ false
      → is_used w x ≡ true
      → delete_role env caller where_ user true w ≡ (err (http 409 foreign_key_violation), w)
  unfolding delete_role delete_provider
  delete_role-used w x e k used = ground (arith, e, k, used)

  delete_role-forced :
      (w : World r) (x : Role)
      → find where_ w.roles ≡ some x
      → is_reserved x ≡ false
      → is_used w x ≡ false
      → delete_role env caller where_ user true w ≡ (
        ok tt,
        deleted_log ((roles env).cascade x (record w { roles = remove_first where_ w.roles })),
      )
  unfolding delete_role delete_provider
  delete_role-forced w x e k unused = ground (arith, e, k, unused)

  -- Whichever deletion is asked for, soft or forced, and whatever its answer: a role with a reserved
  -- name stays in the table as it is.
  pub delete_role_kept :
      (force : Bool) (w : World r) (x : Role)
      → is_reserved x ≡ true
      → Has x w.roles
      → Has x (delete_role env caller where_ user force w).1.roles
  delete_role_kept force w x k m = elim (Option-cases (find where_ w.roles)) [
    | inl e ↦ rw (delete_role-none force w e) m
    | inr (y, e) ↦ elim (Bool-cases (is_reserved y)) [
      | inl t ↦ rw (delete_role-reserved force w y e t) m
      | inr n ↦ elim force as (λ b. Has x (delete_role env caller where_ user b w).1.roles) [
        | false ↦
            rw (delete_role-soft w y e n) (Has-update_first where_ is_reserved _ w.roles e n k m)
        | true ↦ elim (Bool-cases (is_used w y)) [
          | inl used ↦ rw (delete_role-used w y e n used) m
          | inr unused ↦
              rw (delete_role-forced w y e n unused)
                (Has-remove_first where_ is_reserved w.roles e n k m)
        ]
      ]
    ]
  ]

module _ {r : RedisServer} (env : Env) (caller : Option ℕ) (w : World r) (x : Role)
    (name : String) where
  abbrev pub rename : UpdateRoleDto
  rename = record { name = some name; description = none }

  -- The state after the renaming.
  abbrev pub renamed : World r
  renamed = record w {
    roles = update_first (role_by_id x.id) (change_role caller rename) w.roles;
    activity = record { action = role_updated; user_id = caller } ∷ w.activity;
  }
