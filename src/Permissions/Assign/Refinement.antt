-- ===== src/Permissions/Assign/Refinement.antt =====
-- The table of grants as a set of pairs of a role and a permission.
use nestjs_template.Common.{
  ℕ, ◌≡◌, ◌∙◌, refl, Bool, true, false, not, ◌&&◌, ◌||◌, Option, none, some, List, [], ◌∷◌, any,
  every, find, remove_first, member, ◌==◌, ok, err, http, arith, ==_iff, ==_refl, Bool-cases,
  Option-cases, inl, inr, role_not_found, role_permission_not_found, some-inverse, sym, ap,
  all_different-select, all_different-unique, unique,
}
use nestjs_template.Redis.{RedisServer}
use nestjs_template.State.{World, Env, Role, RolePermission, role_permission_removed}
use nestjs_template.Base.Providers.{delete_provider}
use nestjs_template.Permissions.Assign.{
  is_grant, assign_role_permissions, remove_role_permission, assign_permissions, remove_permission,
}
use nestjs_template.Roles.{live_role}
use nestjs_template.Permissions.Assign.Granted.{
  is_granted, is_known, is_role, is_granted-append, granted, to_assign, missing, member-to_assign,
  member-missing, assign-known, assign-unknown,
}
use nestjs_template.Permissions.Assign.Duplicates.{
  no_duplicates, append-no_duplicates, remove_first-view, find-none, remove_first-no_duplicates,
  missing-known,
}

-- A change of the grants of a role, as `RoleService` asks for it.
pub data Change : Type 0 where
  assign : ℕ → List ℕ → Change
  unassign : ℕ → ℕ → Change

-- What a change means for the set: it is refused where the role is not there or archived, and an
-- assignment where one of the ids is of no permission.
abbrev pub changed : (ℕ → Bool) → (ℕ → Bool) → Change → (ℕ → ℕ → Bool) → ℕ → ℕ → Bool
changed live known (assign role ids) granted ρ π =
    granted ρ π || (live role && every known ids && role == ρ && member ids π)
changed live known (unassign role permission) granted ρ π =
    granted ρ π && not (live role && role == ρ && permission == π)

abbrev pub changed_all : (ℕ → Bool) → (ℕ → Bool) → List Change → (ℕ → ℕ → Bool) → ℕ → ℕ → Bool
changed_all live known [] granted = granted
changed_all live known (c ∷ cs) granted = changed_all live known cs (changed live known c granted)

-- There is such a role, and it is not archived.
abbrev pub is_live : List Role → ℕ → Bool
is_live xs n = any (live_role n) xs

-- The table is a set, and it is this one.
pub record Views {r : RedisServer} (w : World r) (live known : ℕ → Bool) (granted : ℕ → ℕ → Bool)
    : Type 0 where
  pub same : (ρ π : ℕ) → is_granted w.role_permissions ρ π ≡ granted ρ π
  pub once : no_duplicates w.role_permissions ≡ true
  pub roles_same : (n : ℕ) → is_live w.roles n ≡ live n
  pub permissions_same : (n : ℕ) → is_known w.permissions n ≡ known n

find-is_live : (xs : List Role) (n : ℕ) → find (live_role n) xs ≡ none → is_live xs n ≡ false
find-is_live [] n h = refl
find-is_live (x ∷ xs) n h = ground (arith, find-is_live xs n)

-- The role that was found has the id, so it is there and not archived.
find-live_role :
    (xs : List Role) (n : ℕ) (x : Role)
    → find (live_role n) xs ≡ some x
    → (x.id ≡ n) × (is_live xs n ≡ true) × (is_role xs n ≡ true)
find-live_role [] n x h = absurd cc
find-live_role (y ∷ ys) n x h = elim (Bool-cases (live_role n y)) [
  | inl e ↦
      let same : y ≡ x = some-inverse (rw e at h) in
      let id = (==_iff y.id n).0 (ground (arith, e)) in
      (ap (λ z. z.id) (sym same) ∙ id, ground (arith, e), ground (arith, e))
  | inr e ↦
      let (id, live, there) = find-live_role ys n x (rw e at h) in
      (id, ground (arith, live), ground (arith, there))
]

module _ {r : RedisServer} (caller : Option ℕ) where
  unassign-none :
      (role permission : ℕ) (w : World r)
      → find (is_grant role permission) w.role_permissions ≡ none
      → remove_role_permission caller role permission w
        ≡ (err (http 404 role_permission_not_found), w)
  unfolding remove_role_permission delete_provider
  unassign-none role permission w e = ground (arith, e)

  unassign-some :
      (role permission : ℕ) (w : World r) (g : RolePermission)
      → find (is_grant role permission) w.role_permissions ≡ some g
      → remove_role_permission caller role permission w ≡ (
        ok tt,
        record w {
          role_permissions = remove_first (is_grant role permission) w.role_permissions;
          activity = record { action = role_permission_removed; user_id = caller } ∷ w.activity;
        },
      )
  unfolding remove_role_permission delete_provider
  unassign-some role permission w g e = ground (arith, e)

  pub assigned_view :
      (role : ℕ) (ids : List ℕ) (w : World r) (ρ π : ℕ)
      → is_granted (granted caller role w (to_assign caller role w ids)).role_permissions ρ π
        ≡ (is_granted w.role_permissions ρ π || (role == ρ && member ids π))
  assigned_view role ids w ρ π = elim (Bool-cases (role == ρ)) [
    | inl e ↦ rw (← (==_iff role ρ).0 e) ground (
      arith,
      is_granted-append role w.role_permissions w.next_id (to_assign caller role w ids) role π,
      member-to_assign caller role w ids π,
      ==_refl role,
    )
    | inr e ↦ ground (
      arith,
      e,
      is_granted-append role w.role_permissions w.next_id (to_assign caller role w ids) ρ π,
    )
  ]

  assigned-no_duplicates :
      (role : ℕ) (ids : List ℕ) (w : World r)
      → no_duplicates w.role_permissions ≡ true
      → no_duplicates (granted caller role w (to_assign caller role w ids)).role_permissions ≡ true
  assigned-no_duplicates role ids w h =
      append-no_duplicates w.role_permissions role w.next_id (to_assign caller role w ids) h
        (all_different-select _ (unique ids) (all_different-unique ids))
        (λ n m. ground (arith, member-to_assign caller role w ids n))

  assigned-Views :
      (role : ℕ) (ids : List ℕ) (w : World r) (live known : ℕ → Bool) (view : ℕ → ℕ → Bool)
      → is_role w.roles role ≡ true
      → live role ≡ true
      → Views w live known view
      → Views
          (assign_role_permissions caller role ids w).1
          live
          known
          (changed live known (assign role ids) view)
  assigned-Views role ids w live known view there is_there h =
      elim (Bool-cases (any (λ _. true) (missing caller role w ids))) [
        | inl e ↦ rw (assign-unknown caller role w ids e) (record {
          same = λ ρ π. ground (arith, h.same ρ π, none_known);
          once = h.once;
          roles_same = h.roles_same;
          permissions_same = h.permissions_same;
        })
        | inr e ↦ rw (assign-known caller role w ids there e) (record {
          same = λ ρ π. ground (arith, h.same ρ π, none_known, assigned_view role ids w ρ π);
          once = assigned-no_duplicates role ids w h.once;
          roles_same = h.roles_same;
          permissions_same = h.permissions_same;
        })
      ]
    where
      none_known : any (λ _. true) (missing caller role w ids) ≡ not (every known ids)
      none_known =
          missing-known known ids _
            (λ n. member-missing caller role w ids n ∙ rw (h.permissions_same n) refl)

  removed-Views :
      (role permission : ℕ) (w : World r) (live known : ℕ → Bool) (view : ℕ → ℕ → Bool)
      → live role ≡ true
      → Views w live known view
      → Views
          (remove_role_permission caller role permission w).1
          live
          known
          (changed live known (unassign role permission) view)
  removed-Views role permission w live known view is_there h =
      elim (Option-cases (find (is_grant role permission) w.role_permissions)) [
        | inl e ↦ rw (unassign-none role permission w e) (record {
          same =
              λ ρ π. ground (arith, h.same ρ π, find-none w.role_permissions role permission ρ π);
          once = h.once;
          roles_same = h.roles_same;
          permissions_same = h.permissions_same;
        })
        | inr (g, e) ↦ rw (unassign-some role permission w g e) (record {
          same = λ ρ π.
              ground (
                arith,
                h.same ρ π,
                h.once,
                remove_first-view w.role_permissions role permission ρ π,
              );
          once = remove_first-no_duplicates w.role_permissions role permission h.once;
          roles_same = h.roles_same;
          permissions_same = h.permissions_same;
        })
      ]

-- A change for a role that is not there changes nothing.
refused-Views :
    {r : RedisServer} (w : World r) (live known : ℕ → Bool) (view view' : ℕ → ℕ → Bool)
    → ((ρ π : ℕ) → view' ρ π ≡ view ρ π)
    → Views w live known view
    → Views w live known view'
refused-Views w live known view view' e h = record {
  same = λ ρ π. h.same ρ π ∙ sym (e ρ π);
  once = h.once;
  roles_same = h.roles_same;
  permissions_same = h.permissions_same;
}

module _ {r : RedisServer} (env : Env) (caller : Option ℕ) where
  -- A refused change leaves the state that it found.
  unfoldable pub apply : Change → World r → World r
  apply (assign role ids) w = (assign_permissions caller env role ids w).1
  apply (unassign role permission) w = (remove_permission caller env role permission w).1

  unfoldable pub apply_all : List Change → World r → World r
  apply_all [] w = w
  apply_all (c ∷ cs) w = apply_all cs (apply c w)

  assign_permissions-none :
      (role : ℕ) (ids : List ℕ) (w : World r)
      → find (live_role role) w.roles ≡ none
      → assign_permissions caller env role ids w ≡ (err (http 404 role_not_found), w)
  unfolding assign_permissions
  assign_permissions-none role ids w e = ground (arith, e)

  assign_permissions-live :
      (role : ℕ) (ids : List ℕ) (w : World r) (x : Role)
      → find (live_role role) w.roles ≡ some x
      → x.id ≡ role
      → assign_permissions caller env role ids w ≡ assign_role_permissions caller role ids w
  unfolding assign_permissions
  assign_permissions-live role ids w x e id = ground (arith, e, id)

  remove_permission-none :
      (role permission : ℕ) (w : World r)
      → find (live_role role) w.roles ≡ none
      → remove_permission caller env role permission w ≡ (err (http 404 role_not_found), w)
  unfolding remove_permission
  remove_permission-none role permission w e = ground (arith, e)

  remove_permission-live :
      (role permission : ℕ) (w : World r) (x : Role)
      → find (live_role role) w.roles ≡ some x
      → x.id ≡ role
      → remove_permission caller env role permission w
        ≡ remove_role_permission caller role permission w
  unfolding remove_permission
  remove_permission-live role permission w x e id = ground (arith, e, id)

  apply-Views :
      (c : Change) (w : World r) (live known : ℕ → Bool) (view : ℕ → ℕ → Bool)
      → Views w live known view
      → Views (apply c w) live known (changed live known c view)
  unfolding apply
  apply-Views (assign role ids) w live known view h =
      elim (Option-cases (find (live_role role) w.roles)) [
        | inl e ↦
            let absent = sym (h.roles_same role) ∙ find-is_live w.roles role e in
            rw (assign_permissions-none role ids w e, apply)
              (refused-Views w live known view _ (λ ρ π. ground (arith, absent)) h)
        | inr (x, e) ↦
            let (id, alive, there) = find-live_role w.roles role x e in
            rw (assign_permissions-live role ids w x e id, apply)
              (assigned-Views caller role ids w live known view there
                (sym (h.roles_same role) ∙ alive) h)
      ]
  apply-Views (unassign role permission) w live known view h =
      elim (Option-cases (find (live_role role) w.roles)) [
        | inl e ↦
            let absent = sym (h.roles_same role) ∙ find-is_live w.roles role e in
            rw (remove_permission-none role permission w e, apply)
              (refused-Views w live known view _ (λ ρ π. ground (arith, absent)) h)
        | inr (x, e) ↦
            let (id, alive, there) = find-live_role w.roles role x e in
            rw (remove_permission-live role permission w x e id, apply)
              (removed-Views caller role permission w live known view
                (sym (h.roles_same role) ∙ alive) h)
      ]

  apply_all-Views :
      (cs : List Change) (w : World r) (live known : ℕ → Bool) (view : ℕ → ℕ → Bool)
      → Views w live known view
      → Views (apply_all cs w) live known (changed_all live known cs view)
  unfolding apply_all
  apply_all-Views [] w live known view h = h
  apply_all-Views (c ∷ cs) w live known view h =
      apply_all-Views cs (apply c w) live known (changed live known c view)
        (apply-Views c w live known view h)

  -- Whatever assignments and removals are asked for, in whatever order, refused ones among them: the
  -- table of grants is then the set that the same changes make of the set that it was, a change of a
  -- role that is not there or archived doing nothing, nor an assignment with an id that is of no
  -- permission, and no pair is in it twice. No pair was in it twice before.
  pub apply_all-refined :
      (cs : List Change) (w : World r)
      → no_duplicates w.role_permissions ≡ true
      → Views (apply_all cs w) (is_live w.roles) (is_known w.permissions) (
          changed_all (is_live w.roles) (is_known w.permissions) cs (is_granted w.role_permissions))
  apply_all-refined cs w h =
      apply_all-Views cs w (is_live w.roles) (is_known w.permissions)
        (is_granted w.role_permissions)
        (record {
          same = λ ρ π. refl;
          once = h;
          roles_same = λ n. refl;
          permissions_same = λ n. refl;
        })
