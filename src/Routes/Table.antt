-- ===== src/Routes/Table.antt =====
-- The controllers of the application, in the order of src/modules; a route is named for its handler.
use nestjs_template.Common.{none, some, true, List, [], ◌∷◌}
use nestjs_template.Response.Errors.{ok_, created}
use nestjs_template.Guards.{public}
use nestjs_template.Routes.{
  get, post, patch, delete, RouteController, route, open_route, requires, limited, forced,
}

unfoldable pub auth_controller : RouteController
auth_controller = record {
  path = "auth";
  auth_types = none;
  skip = some true;
  permissions = none;
  module_ = "auth";
  routes =
      limited (open_route (route "signup" post "signup" created "signup"))
      ∷ limited (open_route (route "signin" post "signin" ok_ "signin"))
      ∷ limited (open_route (route "google_signin" post "google" ok_ "signin"))
      ∷ limited (open_route (route "refresh_token" post "refresh-token" ok_ "refresh-token"))
      ∷ limited (open_route (route "verify_email" post "verify-email" ok_ "email-verified"))
      ∷ limited (
          open_route
            (route "resend_verification" post "resend-verification" ok_ "verification-sent"))
      ∷ limited
          (open_route (route "forgot_password" post "forgot-password" ok_ "forgot-password-token"))
      ∷ limited (open_route (route "reset_password" post "reset-password" ok_ "password-reset"))
      ∷ limited (route "change_password" patch "change-password" ok_ "change-password")
      ∷ limited (route "list_sessions" get "sessions" ok_ "list-sessions")
      ∷ limited (route "revoke_session" delete "sessions/:sessionId" ok_ "session-revoked")
      ∷ route "logout" post "logout" ok_ "logout"
      ∷ [];
}

unfoldable pub user_controller : RouteController
user_controller = record {
  path = "users";
  auth_types = none;
  skip = none;
  permissions = none;
  module_ = "users";
  routes =
      requires "users:list" (route "list" get "" ok_ "users-list")
      ∷ route "create" post "" created "create-user"
      ∷ requires "users:me" (route "me" get "me" ok_ "user-detail")
      ∷ requires "users:update-me" (route "update_me" patch "me" ok_ "update-user")
      ∷ requires "users:detail" (route "find_one" get ":id" ok_ "user-detail")
      ∷ requires "users:update" (route "update" patch ":id" ok_ "update-user")
      ∷ forced "hard-delete-user" (route "remove" delete ":id" ok_ "soft-delete-user")
      ∷ requires "users:restore" (route "restore" patch ":id/restore" ok_ "restore-user")
      ∷ requires "users:activate" (route "activate" patch ":id/activate" ok_ "activate-user")
      ∷ requires "users:deactivate"
          (route "deactivate" patch ":id/deactivate" ok_ "deactivate-user")
      ∷ requires "users:upload-avatar"
          (route "upload_avatar" patch ":id/avatar" ok_ "upload-avatar")
      ∷ [];
}

unfoldable pub role_controller : RouteController
role_controller = record {
  path = "roles";
  auth_types = none;
  skip = none;
  permissions = none;
  module_ = "roles";
  routes =
      route "create" post "" created "create-role"
      ∷ route "list" get "" ok_ "roles-list"
      ∷ route "find_one" get ":id" ok_ "role-detail"
      ∷ route "update" patch ":id" ok_ "update-role"
      ∷ requires "roles:restore" (route "restore" patch ":id/restore" ok_ "restore-role")
      ∷ forced "hard-delete-role" (route "remove" delete ":id" ok_ "soft-delete-role")
      ∷ requires "roles:manage-permissions" (
          route "sync_admin_permissions" post "sync-admin-permissions" created
            "sync-admin-permissions")
      ∷ requires "roles:manage-permissions"
          (route "get_permissions" get ":id/permissions" ok_ "role-permissions-list")
      ∷ requires "roles:manage-permissions"
          (route "assign_permissions" post ":id/permissions" created "assign-permissions")
      ∷ requires "roles:manage-permissions"
          (route "remove_permission" delete ":id/permissions/:permissionId" ok_ "remove-permission")
      ∷ [];
}

unfoldable pub permission_controller : RouteController
permission_controller = record {
  path = "permissions";
  auth_types = none;
  skip = none;
  permissions = none;
  module_ = "permissions";
  routes =
      route "create" post "" created "create-permission"
      ∷ route "list" get "" ok_ "permissions-list"
      ∷ route "find_one" get ":id" ok_ "permission-detail"
      ∷ route "update" patch ":id" ok_ "update-permission"
      ∷ route "remove" delete ":id" ok_ "delete-permission"
      ∷ [];
}

unfoldable pub error_tracking_controller : RouteController
error_tracking_controller = record {
  path = "error-tracking";
  auth_types = none;
  skip = none;
  permissions = none;
  module_ = "error-tracking";
  routes =
      route "list" get "" ok_ "server-errors-list"
      ∷ route "find_one" get ":id" ok_ "server-error-detail"
      ∷ route "update_status" patch ":id/status" ok_ "update-server-error-status"
      ∷ route "remove" delete ":id" ok_ "delete-server-error"
      ∷ [];
}

unfoldable pub activity_log_controller : RouteController
activity_log_controller = record {
  path = "activity-log";
  auth_types = none;
  skip = none;
  permissions = none;
  module_ = "activity-log";
  routes =
      route "list" get "" ok_ "request-logs-list"
      ∷ route "list_user_logs" get "users" ok_ "user-activity-logs"
      ∷ route "list_system_logs" get "system" ok_ "system-activity-logs"
      ∷ route "find_user_log" get "users/:id" ok_ "user-activity-log-detail"
      ∷ route "find_system_log" get "system/:id" ok_ "system-activity-log-detail"
      ∷ route "find_one" get ":id" ok_ "request-log-detail"
      ∷ [];
}

unfoldable pub app_controller : RouteController
app_controller = record {
  path = "app";
  auth_types = some (public ∷ []);
  skip = none;
  permissions = none;
  module_ = "app";
  routes = route "app_status" get "status" ok_ "app-status" ∷ [];
}

unfoldable pub health_controller : RouteController
health_controller = record {
  path = "health";
  auth_types = some (public ∷ []);
  skip = none;
  permissions = none;
  module_ = "healths";
  routes =
      route "db_health" get "database" ok_ "db-health"
      ∷ route "get_queue_stats" get "queue-stats" ok_ "queue-stats"
      ∷ route "queue_list" get "queues" ok_ "queue-list"
      ∷ [];
}

unfoldable pub controllers : List RouteController
controllers =
    auth_controller ∷ user_controller ∷ role_controller ∷ permission_controller
    ∷ error_tracking_controller ∷ activity_log_controller ∷ app_controller ∷ health_controller ∷ []
