-- ===== src/Permissions/Assign/Granted.antt =====
-- What an assignment of permissions leaves in the table of grants.
use nestjs_template.Common.{
  append_assoc, append-nil, ℕ, suc, ◌≡◌, refl, Bool, true, false, not, ◌&&◌, ◌||◌, Option, List, [],
  ◌∷◌, ◌++◌, map, any, every, select, member, unique, all_different, member-select, member-unique,
  all_different-select, all_different-unique, ◌==◌, ok, err, http, arith, ◌∙◌, ==_iff, ==_refl,
  Bool-cases, inl, inr, permission_not_found,
}
use nestjs_template.Redis.{RedisServer}
use nestjs_template.State.{
  World, LogEntry, Role, Permission, RolePermission, role_permissions_assigned,
}
use nestjs_template.State.Tables.{role_permissions}
use nestjs_template.Base.Repository.{create, create_many}
use nestjs_template.Base.Created.{create_many-cons}
use nestjs_template.Permissions.Assign.{grant, is_grant, grant_missing, assign_role_permissions}

-- The table as a relation between roles and permissions.
abbrev pub is_granted : List RolePermission → ℕ → ℕ → Bool
is_granted grants role permission = any (is_grant role permission) grants

abbrev pub is_known : List Permission → ℕ → Bool
is_known ps id = any (λ p. p.id == id) ps

abbrev pub is_role : List Role → ℕ → Bool
is_role xs id = any (λ x. x.id == id) xs

pub no_member : (ns : List ℕ) (n : ℕ) → any (λ _. true) ns ≡ false → member ns n ≡ false
no_member [] n h = refl
no_member (k ∷ ns) n h = absurd cc

abbrev pub granted_rows : ℕ → ℕ → List ℕ → List RolePermission
granted_rows role n [] = []
granted_rows role n (id ∷ ids) = grant role id n ∷ granted_rows role (suc n) ids

pub is_granted-append :
    (role : ℕ) (gs : List RolePermission) (n : ℕ) (ids : List ℕ) (ρ π : ℕ)
    → is_granted (gs ++ granted_rows role n ids) ρ π
      ≡ (is_granted gs ρ π || (role == ρ && member ids π))
is_granted-append role [] n [] ρ π = ground arith
is_granted-append role [] n (id ∷ ids) ρ π =
    ground (arith, is_granted-append role [] (suc n) ids ρ π)
is_granted-append role (g ∷ gs) n ids ρ π = ground (arith, is_granted-append role gs n ids ρ π)

-- The ids of the role's rows are the permissions that it has.
member-grants :
    (gs : List RolePermission) (role π : ℕ)
    → member (map (λ g. g.permission_id) (select (λ g. g.role_id == role) gs)) π
      ≡ is_granted gs role π
member-grants [] role π = refl
member-grants (g ∷ gs) role π = ground (arith, member-grants gs role π)

member-found :
    (q : ℕ → Bool) (ps : List Permission) (n : ℕ)
    → member (map (λ p. p.id) (select (λ p. q p.id) ps)) n ≡ (is_known ps n && q n)
member-found q [] n = refl
member-found q (p ∷ ps) n = elim (Bool-cases (p.id == n)) [
  | inl e ↦ rw (← (==_iff p.id n).0 e) ground (arith, member-found q ps p.id)
  | inr e ↦ ground (arith, member-found q ps n)
]

every-known :
    (ps : List Permission) (ids : List ℕ)
    → any (λ _. true) (select (λ id. not (is_known ps id)) ids) ≡ not (every (is_known ps) ids)
every-known ps [] = refl
every-known ps (id ∷ ids) = ground (arith, every-known ps ids)

-- The unique column of the table.
any-clash :
    (gs : List RolePermission) (role id : ℕ)
    → any (λ g. role == g.role_id && id == g.permission_id) gs ≡ is_granted gs role id
any-clash [] role id = refl
any-clash (g ∷ gs) role id = ground (arith, any-clash gs role id)

-- The next key after one for each item.
abbrev advance : ℕ → List ℕ → ℕ
advance n [] = n
advance n (id ∷ ids) = advance (suc n) ids

module _ {r : RedisServer} (role : ℕ) where
  abbrev grants_made : List ℕ → World r → World r
  grants_made ids w = record w {
    next_id = advance w.next_id ids;
    role_permissions = w.role_permissions ++ granted_rows role w.next_id ids;
  }

  abbrev with_grant : ℕ → World r → World r
  with_grant id w = record w {
    next_id = suc w.next_id;
    role_permissions = w.role_permissions ++ grant role id w.next_id ∷ [];
  }

  -- The permissions are known, and the role has none of them.
  IsGrantable : List ℕ → World r → Type 0
  IsGrantable ids w =
      (n : ℕ)
      → member ids n ≡ true
      → (is_granted w.role_permissions role n ≡ false) × (is_known w.permissions n ≡ true)

  with_grant-IsGrantable :
      (id : ℕ) (ids : List ℕ) (w : World r)
      → all_different (id ∷ ids) ≡ true
      → IsGrantable (id ∷ ids) w
      → IsGrantable ids (with_grant id w)
  unfolding IsGrantable
  with_grant-IsGrantable id ids w different new n m = elim (Bool-cases (id == n)) [
    | inl e ↦ let same = (==_iff id n).0 e in let m' = rw (← same) at m in absurd (ground arith)
    | inr e ↦
        ground (arith, is_granted-append role w.role_permissions w.next_id (id ∷ []) role n, new n)
  ]

  create-grant :
      (id : ℕ) (w : World r)
      → is_granted w.role_permissions role id ≡ false
      → is_role w.roles role ≡ true
      → is_known w.permissions id ≡ true
      → create role_permissions (grant role id) w ≡ (ok (grant role id w.next_id), with_grant id w)
  create-grant id w new there known = ground (arith, any-clash w.role_permissions role id)

  -- None of the known permissions is granted yet and all are different: each gets its row.
  create_many-grants :
      (ids : List ℕ) (w : World r)
      → is_role w.roles role ≡ true
      → IsGrantable ids w
      → all_different ids ≡ true
      → create_many role_permissions (map (grant role) ids) w
        ≡ (ok (granted_rows role w.next_id ids), grants_made ids w)
  unfolding create_many IsGrantable
  create_many-grants [] w there new different = rw (append-nil w.role_permissions) refl
  create_many-grants (id ∷ ids) w there new different =
      let (free, known) = new id (ground (arith, ==_refl id)) in
      create_many-cons role_permissions (grant role id) (map (grant role) ids) w
        (create-grant id w free there known)
        (create_many-grants ids (with_grant id w) there
          (with_grant-IsGrantable id ids w different new) (ground arith))
      ∙ rw
          (append_assoc w.role_permissions (grant role id w.next_id)
            (granted_rows role (suc w.next_id) ids))
          refl

module _ {r : RedisServer} (caller : Option ℕ) (role : ℕ) (w : World r) where
  abbrev assigned_log : List ℕ → List LogEntry
  assigned_log [] = w.activity
  assigned_log (id ∷ ids) =
      record { action = role_permissions_assigned; user_id = caller } ∷ w.activity

  abbrev pub granted : List ℕ → World r
  granted ids = record (grants_made role ids w) { activity = assigned_log ids }

  grant_missing_eq :
      (ids : List ℕ)
      → is_role w.roles role ≡ true
      → IsGrantable role ids w
      → all_different ids ≡ true
      → grant_missing caller role ids w ≡ (ok (granted_rows role w.next_id ids), granted ids)
  unfolding grant_missing
  grant_missing_eq [] there new different = rw (append-nil w.role_permissions) refl
  grant_missing_eq (id ∷ ids) there new different =
      ground (arith, create_many-grants role (id ∷ ids) w there new different)

  -- The ids of the request that the role does not have yet.
  abbrev pub to_assign : List ℕ → List ℕ
  to_assign ids =
      select
        (λ id. not (
          member (map (λ g. g.permission_id) (select (λ g. g.role_id == role) w.role_permissions))
            id))
        (unique ids)

  pub member-to_assign :
      (ids : List ℕ) (n : ℕ)
      → member (to_assign ids) n ≡ (member ids n && not (is_granted w.role_permissions role n))
  member-to_assign ids n =
      member-select _ (unique ids) n
      ∙ rw (member-unique ids n, member-grants w.role_permissions role n) refl

  -- The ids of the request that are not of a permission.
  abbrev pub missing : List ℕ → List ℕ
  missing ids =
      select
        (λ id.
          not (member (map (λ p. p.id) (select (λ p. member (unique ids) p.id) w.permissions)) id))
        (unique ids)

  pub member-missing :
      (ids : List ℕ) (n : ℕ)
      → member (missing ids) n ≡ (member ids n && not (is_known w.permissions n))
  member-missing ids n =
      member-select _ (unique ids) n
      ∙ rw (member-found (member (unique ids)) w.permissions n, member-unique ids n) ground arith

  -- Without a missing one all ids of the request are of a permission.
  to_assign-IsGrantable :
      (ids : List ℕ) → any (λ _. true) (missing ids) ≡ false → IsGrantable role (to_assign ids) w
  unfolding IsGrantable
  to_assign-IsGrantable ids h n m =
      let absent = no_member (missing ids) n h in
      ground (arith, absent, member-to_assign ids n, member-missing ids n)

  pub assign-known :
      (ids : List ℕ)
      → is_role w.roles role ≡ true
      → any (λ _. true) (missing ids) ≡ false
      → assign_role_permissions caller role ids w
        ≡ (ok (granted_rows role w.next_id (to_assign ids)), granted (to_assign ids))
  unfolding assign_role_permissions
  assign-known ids there h = ground (
    arith,
    h,
    grant_missing_eq (to_assign ids) there (to_assign-IsGrantable ids h)
        (all_different-select _ (unique ids) (all_different-unique ids)),
  )

  pub assign-unknown :
      (ids : List ℕ)
      → any (λ _. true) (missing ids) ≡ true
      → assign_role_permissions caller role ids w ≡ (err (http 404 permission_not_found), w)
  unfolding assign_role_permissions
  assign-unknown ids h = ground (arith, h)
