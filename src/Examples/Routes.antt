-- ===== src/Examples/Routes.antt =====
-- The theorems on the routes and on the cookies, applied.
use nestjs_template.Common.{
  ◌≡◌, refl, true, unique, ◌⊎◌, none, some, [], ◌∷◌, Has, here, there, inl, ok, arith, ◌===◌, false,
}
use nestjs_template.Redis.Memory.{memory, memory_laws}
use nestjs_template.State.{World, JwtPayload}
use nestjs_template.Guards.{
  cookie_named, Call, user_of, auth_guard, validate_token, permissions_guard, extract_token,
}
use nestjs_template.Response.Errors.{created}
use nestjs_template.Routes.{post, route, handler_of, Route, call_of, scanned}
use nestjs_template.Routes.Table.{controllers, permission_controller}
use nestjs_template.Routes.Open.{all_routes, open_to, open_routes}
use nestjs_template.Routes.Asked.{IsDeclared}
use nestjs_template.Routes.Admin.{permissions_guard-sync}
use nestjs_template.Cookies.{Attributes, set_auth, cookie_value}
use nestjs_template.Redis.{exists, del_all}
use nestjs_template.Permissions.Lookup.{find_permission_keys, role_permissions_join}
use nestjs_template.Auth.Tokens.{create_refresh_token}
use nestjs_template.Auth.History.{notify_new_device, create_auth_history}
use nestjs_template.Hash.{verify, split_last}
use nestjs_template.Users.{update_user}
use nestjs_template.Base.Providers.{update_provider}
use nestjs_template.Auth.Signin.{
  signin, check_credentials, replace_device_session, open_session, stored_password, is_locked,
}
use nestjs_template.Text.{capitalize}
use nestjs_template.Hibp.Text.{split_colon, trim}
use nestjs_template.Base.Repository.{create_many, remove_many, cascade_all}
use nestjs_template.Permissions.Assign.{assign_role_permissions, grant_missing}
use nestjs_template.Permissions.Manage.{
  upsert_permissions, bulk_delete_permissions, bulk_remove_role_permissions,
}
use nestjs_template.Roles.Discovery.{
  discover_permission_keys, scan_controllers, scan_handlers, handler_keys, resource_of, key_to_name,
}
use nestjs_template.Roles.Sync.{SyncResult, sync_admin_permissions, sync_items}
use nestjs_template.Examples.Roles.{with_roles, a_role}
use nestjs_template.Auth.Handlers.{Exchange, handle_signin}
use nestjs_template.Auth.Handlers.Admitted.{auth_guard-handle_signin}
use nestjs_template.Examples.{an_env, a_request, a_world, ann, a_payload, right_dto}
use nestjs_template.Examples.Credentials.{ann-IsEntitled}

open_routes_example :
    open_to an_env a_world (("accessToken", "forged") ∷ []) none (all_routes controllers)
    ≡ ("auth", "signup")
      ∷ ("auth", "signin")
      ∷ ("auth", "google_signin")
      ∷ ("auth", "refresh_token")
      ∷ ("auth", "verify_email")
      ∷ ("auth", "resend_verification")
      ∷ ("auth", "forgot_password")
      ∷ ("auth", "reset_password")
      ∷ ("app", "app_status")
      ∷ ("health", "db_health")
      ∷ ("health", "get_queue_stats")
      ∷ ("health", "queue_list")
      ∷ []
unfolding validate_token extract_token
open_routes_example = open_routes an_env a_world (("accessToken", "forged") ∷ []) none _ refl

abbrev an_exchange : Exchange memory
an_exchange = record { world = a_world; cookies = [] }

abbrev a_call : Call
a_call = record {
  auth_types = none;
  skip_permissions = none;
  required_permissions = none;
  controller_path = some "auth";
  method = "GET";
  cookies = ("accessToken", "signed") ∷ [];
  authorization = none;
}

-- The browser presents the one cookie for the path `/` that the sign-in left.
a_call-presents :
    (a : Attributes)
    → a.path ≡ "/"
    → cookie_named a.name a_call.cookies
      ≡ cookie_value a (handle_signin an_env true a_request right_dto an_exchange).1.cookies
unfolding handle_signin cookie_value set_auth signin check_credentials update_user update_provider
    replace_device_session open_session stored_password verify split_last is_locked exists
    find_permission_keys create_refresh_token notify_new_device create_auth_history del_all
    cookie_named
a_call-presents a root =
    let elsewhere : (a.path === "/v1/auth") ≡ false = rw root refl in
    let here_ : (a.path === "/") ≡ true = rw root refl in ground (arith, elsewhere, here_)

auth_guard-handle_signin_example :
    auth_guard an_env
      (record (handle_signin an_env true a_request right_dto an_exchange).1.world { now = 5000 })
      a_call
    ≡ ok (some (user_of a_payload))
unfolding handle_signin cookie_value set_auth signin check_credentials update_user update_provider
    replace_device_session open_session stored_password verify split_last is_locked exists
    find_permission_keys create_refresh_token notify_new_device create_auth_history del_all
auth_guard-handle_signin_example =
    auth_guard-handle_signin an_env true a_request right_dto an_exchange ann memory_laws 5000
      a_payload a_call ann-IsEntitled refl (omega arith) refl refl refl refl a_call-presents

abbrev sync_result : SyncResult
sync_result = record { total_discovered = 4; created = 4; assigned = 4; removed = 1 }

abbrev synced : World memory
synced =
    (sync_admin_permissions an_env (some 7) (scanned permission_controller ∷ []) 7 with_roles).1

abbrev admin_payload : JwtPayload
admin_payload = record a_payload {
  permissions = some (
      "users:read" ∷ "permissions:create" ∷ "permissions:read" ∷ "permissions:update"
      ∷ "permissions:delete" ∷ []);
}

permission_controller-IsDeclared : IsDeclared permission_controller
unfolding permission_controller resource_of
permission_controller-IsDeclared = record {
  no_permissions = refl;
  resource = refl;
  skips = λ r m. no_skip r m;
}
  where
    no_skip :
        (r : Route) → Has r permission_controller.routes → (r.skip ≡ none) ⊎ (r.skip ≡ some true)
    no_skip r here = inl refl
    no_skip r (there here) = inl refl
    no_skip r (there (there here)) = inl refl
    no_skip r (there (there (there here))) = inl refl
    no_skip r (there (there (there (there here)))) = inl refl
    no_skip r (there (there (there (there (there m))))) = elim m [ ]

abbrev create_route : Route
create_route = route "create" post "" created "create-permission"

permissions_guard-sync_example :
    permissions_guard
      (call_of permission_controller create_route [] none)
      (some (user_of admin_payload))
    ≡ ok tt
unfolding sync_admin_permissions sync_items discover_permission_keys scan_controllers scan_handlers
    handler_keys resource_of key_to_name capitalize split_colon trim upsert_permissions
    bulk_delete_permissions bulk_remove_role_permissions create_many remove_many cascade_all
    assign_role_permissions grant_missing unique find_permission_keys role_permissions_join scanned
    handler_of permission_controller
permissions_guard-sync_example =
    permissions_guard-sync an_env (some 7) (permission_controller ∷ []) 7 with_roles synced
      (a_role 1 "Admin") sync_result admin_payload
      ("users:read" ∷ "permissions:create" ∷ "permissions:read" ∷ "permissions:update"
        ∷ "permissions:delete" ∷ [])
      refl refl refl refl refl permission_controller here permission_controller-IsDeclared
      create_route here [] none
