-- ===== src/Permissions/Manage/System.antt =====
-- The permissions of the system, under `UpdatePermissionProvider` and `DeletePermissionProvider`.
use nestjs_template.Common.{
  ℕ, ◌≡◌, Bool, true, false, not, ◌&&◌, Option, none, some, find, Has, Has-update_first,
  Has-remove_first, update_first, remove_first, Failure, ◌⊎◌, truthy_option, or_else, ◌===◌,
  permission_key_exists, ok, err, http, arith, Bool-cases, Option-cases, inl, inr, ◌==◌,
  permission_protected,
}
use nestjs_template.Redis.{RedisServer}
use nestjs_template.State.{World, Permission}
use nestjs_template.Base.Providers.{update_provider, delete_provider}
use nestjs_template.Permissions.Manage.{
  is_system_key, UpdatePermissionDto, change_permission, check_permission_key, update_permission,
  delete_permission,
}

abbrev other : Permission → UpdatePermissionDto → Permission → Bool
other p dto q = q.key === or_else dto.key "" && not (q.id == p.id)

abbrev is_system : Permission → Bool
is_system p = is_system_key p.key

module _ {r : RedisServer} (caller : Option ℕ) (where_ : Permission → Bool) where
  -- An update and a deletion leave the row that they find as it is, or are refused.
  update-none :
      (dto : UpdatePermissionDto) (w : World r)
      → find where_ w.permissions ≡ none
      → (update_permission caller where_ dto w).1 ≡ w
  unfolding update_permission update_provider
  update-none dto w e = ground (arith, e)

  update-system :
      (dto : UpdatePermissionDto) (w : World r) (p : Permission)
      → find where_ w.permissions ≡ some p
      → is_system_key p.key ≡ true
      → update_permission caller where_ dto w ≡ (err (http 403 permission_protected), w)
  unfolding update_permission update_provider check_permission_key
  update-system dto w p e k = ground (arith, e, k)

  update-free :
      (dto : UpdatePermissionDto) (w : World r) (p : Permission)
      → find where_ w.permissions ≡ some p
      → is_system_key p.key ≡ false
      → check_permission_key caller p dto w ≡ (ok tt, w)
      → (update_permission caller where_ dto w).1.permissions
        ≡ update_first where_ (change_permission caller dto) w.permissions
  unfolding update_permission update_provider
  update-free dto w p e k free = ground (arith, e, k, free)

  update-clash :
      (dto : UpdatePermissionDto) (w : World r) (p : Permission) (x : Failure)
      → find where_ w.permissions ≡ some p
      → check_permission_key caller p dto w ≡ (err x, w)
      → (update_permission caller where_ dto w).1 ≡ w
  unfolding update_permission update_provider
  update-clash dto w p x e clash = ground (arith, e, clash)

  check-cases :
      (p : Permission) (dto : UpdatePermissionDto) (w : World r)
      → (check_permission_key caller p dto w ≡ (ok tt, w))
        ⊎ ((x : Failure) × (check_permission_key caller p dto w ≡ (err x, w)))
  unfolding check_permission_key
  check-cases p dto w = elim (Bool-cases (is_system_key p.key)) [
    | inl system ↦ inr (http 403 permission_protected, ground (arith, system))
    | inr free ↦ elim (Bool-cases (truthy_option dto.key)) [
      | inr same ↦ inl (ground (arith, free, same))
      | inl given ↦ elim (Option-cases (find (other p dto) w.permissions)) [
        | inl unique_key ↦ inl (ground (arith, free, given, unique_key))
        | inr (q, taken) ↦ inr (http 409 permission_key_exists, ground (arith, free, given, taken))
      ]
    ]
  ]

  delete-none :
      (w : World r) → find where_ w.permissions ≡ none → (delete_permission caller where_ w).1 ≡ w
  unfolding delete_permission delete_provider
  delete-none w e = ground (arith, e)

  delete-system :
      (w : World r) (p : Permission)
      → find where_ w.permissions ≡ some p
      → is_system_key p.key ≡ true
      → (delete_permission caller where_ w).1 ≡ w
  unfolding delete_permission delete_provider
  delete-system w p e k = ground (arith, e, k)

  delete-free :
      (w : World r) (p : Permission)
      → find where_ w.permissions ≡ some p
      → is_system_key p.key ≡ false
      → (delete_permission caller where_ w).1.permissions ≡ remove_first where_ w.permissions
  unfolding delete_permission delete_provider
  delete-free w p e k = ground (arith, e, k)

  update-kept :
      (dto : UpdatePermissionDto) (w : World r) (p : Permission)
      → is_system_key p.key ≡ true
      → Has p w.permissions
      → Has p (update_permission caller where_ dto w).1.permissions
  update-kept dto w p k m = elim (Option-cases (find where_ w.permissions)) [
    | inl e ↦ rw (update-none dto w e) m
    | inr (q, e) ↦ elim (check-cases q dto w) [
      | inr (x, clash) ↦ rw (update-clash dto w q x e clash) m
      | inl free ↦ elim (Bool-cases (is_system_key q.key)) [
        | inl system ↦ rw (update-system dto w q e system) m
        | inr ordinary ↦
            rw (update-free dto w q e ordinary free)
              (Has-update_first where_ is_system _ w.permissions e ordinary k m)
      ]
    ]
  ]

  -- Whichever row an update or a deletion asks for, and whatever the answer: a permission whose key
  -- begins with roles:, users: or permissions: stays in the table as it is.
  pub system_permission_kept :
      (dto : UpdatePermissionDto) (w : World r) (p : Permission)
      → is_system_key p.key ≡ true
      → Has p w.permissions
      → Has p (update_permission caller where_ dto w).1.permissions
        × Has p (delete_permission caller where_ w).1.permissions
  system_permission_kept dto w p k m = (
    update-kept dto w p k m,
    elim (Option-cases (find where_ w.permissions)) [
      | inl e ↦ rw (delete-none w e) m
      | inr (q, e) ↦ elim (Bool-cases (is_system_key q.key)) [
        | inl system ↦ rw (delete-system w q e system) m
        | inr ordinary ↦
            rw (delete-free w q e ordinary)
              (Has-remove_first where_ is_system w.permissions e ordinary k m)
      ]
    ],
  )
