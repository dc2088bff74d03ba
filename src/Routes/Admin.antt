-- ===== src/Routes/Admin.antt =====
-- The administrator after a synchronisation, at the routes that were scanned.
use nestjs_template.Common.{
  ℕ, String, ◌≡◌, refl, sym, ap, ◌∙◌, true, Option, some, List, [], ◌∷◌, map, any, select, find,
  All, All-map, Has, here, there, any-Has, Has-any, Has-left, Has-right, Has-select, ◌===◌,
  ===_refl, ok, ok-inverse, truthy_number, arith,
}
use mathlib.Core.Path.{subst}
use nestjs_template.Redis.{RedisServer}
use nestjs_template.State.{World, Env, Role, Permission, RolePermission, JwtPayload}
use nestjs_template.Permissions.Lookup.{links, role_permissions_join, find_permission_keys}
use nestjs_template.Permissions.Assign.{is_grant}
use nestjs_template.Permissions.Assign.Granted.{is_granted}
use nestjs_template.Permissions.Manage.Rows.{Has-map}
use nestjs_template.Roles.Discovery.{discover_permission_keys}
use nestjs_template.Roles.Sync.{is_admin_role, SyncResult, sync_admin_permissions}
use nestjs_template.Roles.Sync.Kept.{Holds, sync_admin_permissions-kept}
use nestjs_template.Guards.{user_of, holds, permissions_guard}
use nestjs_template.Routes.{Route, RouteController, call_of, scanned}
use nestjs_template.Routes.Asked.{IsDeclared, permissions_guard-scanned}

any-links :
    (role p : ℕ) (rps : List RolePermission)
    → any (λ g. links role p g) rps ≡ any (is_grant role p) rps
any-links role p [] = refl
any-links role p (g ∷ rps) = ground (arith, any-links role p rps)

-- The join of a role has the permissions that it is granted.
join-granted :
    (role : ℕ) (rps : List RolePermission) (ps : List Permission) (p : Permission)
    → Has p ps
    → is_granted rps role p.id ≡ true
    → Has p (role_permissions_join role rps ps)
unfolding role_permissions_join
join-granted role rps [] p m h = elim m [ ]
join-granted role rps (q ∷ ps) p here h =
    let (g, in_rps, is_link) = any-Has (λ g. links role q.id g) rps (any-links role q.id rps ∙ h) in
    Has-left _ (Has-map (λ _. q) (Has-select (links role q.id) is_link in_rps))
join-granted role rps (q ∷ ps) p (there m) h =
    Has-right (map (λ _. q) (select (links role q.id) rps)) (join-granted role rps ps p m h)

module _ {r : RedisServer} (w : World r) (role : ℕ) (known : truthy_number role ≡ true) where
  keys_eq :
      find_permission_keys (some role) w
      ≡ (ok (map (λ p. p.key) (role_permissions_join role w.role_permissions w.permissions)), w)
  unfolding find_permission_keys
  keys_eq = rw known refl

  -- A payload with the permission keys of a role holds what the role does.
  payload-Holds :
      (p : JwtPayload) (keys : List String) (k : String)
      → find_permission_keys (some role) w ≡ (ok keys, w)
      → p.permissions ≡ some keys
      → Holds w role k
      → holds (some (user_of p)) k ≡ true
  payload-Holds p keys k found carries (q, m, same, granted) =
      let is_keys = (ok-inverse (sym keys_eq ∙ found)).0 in
      let in_join = join-granted role w.role_permissions w.permissions q m granted in
      let in_keys : Has q.key keys = subst (Has q.key) is_keys (Has-map (λ x. x.key) in_join) in
      subst (λ j. holds (some (user_of p)) j ≡ true) same
        (rw carries (Has-any (λ j. j === q.key) in_keys (===_refl q.key)))

module _ {r : RedisServer} (env : Env) (caller : Option ℕ) where
  -- After a synchronisation of the routes that succeeds, an access token that carries the permission
  -- keys of the administrator role passes the permission guard at every one of the routes. The role is
  -- known by name, not archived, and has an id that is not 0; no class has `@RequirePermissions`, and
  -- each has a path.
  pub permissions_guard-sync :
      (cs : List RouteController) (admin : ℕ) (w u : World r) (role : Role) (res : SyncResult)
      (p : JwtPayload) (keys : List String)
      → find is_admin_role w.roles ≡ some role
      → truthy_number role.id ≡ true
      → sync_admin_permissions env caller (map scanned cs) admin w ≡ (ok res, u)
      → find_permission_keys (some role.id) u ≡ (ok keys, u)
      → p.permissions ≡ some keys
      → (c : RouteController) → Has c cs
      → IsDeclared c
      → (route : Route) → Has route c.routes
      → (cookies : List (String × String)) (authorization : Option String)
      → permissions_guard (call_of c route cookies authorization) (some (user_of p)) ≡ ok tt
  permissions_guard-sync cs admin w u role res p keys is_role known synced found carries c in_cs
        declared route in_c cookies authorization =
      let items = discover_permission_keys (map scanned cs) in
      let kept =
        sync_admin_permissions-kept env caller (map scanned cs) admin w role res is_role
          (ap (λ x. x.0) synced) in
      let held : All (λ i. Holds u role.id i.key) items =
        subst (λ x. All (λ i. Holds x role.id i.key) items) (ap (λ x. x.1) synced) kept.1 in
      permissions_guard-scanned cs (user_of p) cookies authorization
        (All-map (λ i. Holds u role.id i.key) (λ i. holds (some (user_of p)) i.key ≡ true) items
          (λ i h. payload-Holds u role.id known p keys i.key found carries h) held)
        c in_cs declared route in_c
