-- ===== src/Routes/Open.antt =====
-- Which routes a request without a token gets through.
use nestjs_template.Common.{
  String, ◌≡◌, refl, Bool, true, false, Option, none, List, [], ◌∷◌, ◌++◌, Result, ok, err, Failure,
  not, ◌&&◌, ◌∙◌, Bool-cases, inl, inr, arith, if◌then◌else◌,
}
use nestjs_template.Redis.{RedisServer}
use nestjs_template.State.{World, Env, UserPayload}
use nestjs_template.Guards.{
  Call, public, optional, includes, enter, auth_guard, permissions_guard, validate_token,
  extract_token,
}
use nestjs_template.Routes.{Route, RouteController, call_of, override}
use nestjs_template.Routes.Table.{
  controllers, auth_controller, user_controller, role_controller, permission_controller,
  error_tracking_controller, activity_log_controller, app_controller, health_controller,
}

-- Each route of a list of controllers, with its controller.
abbrev paired : RouteController → List Route → List (RouteController × Route)
paired c [] = []
paired c (r ∷ rs) = (c, r) ∷ paired c rs

unfoldable pub all_routes : List RouteController → List (RouteController × Route)
all_routes [] = []
all_routes (c ∷ cs) = paired c c.routes ++ all_routes cs

abbrev is_ok : Result (Option UserPayload) → Bool
is_ok (ok _) = true
is_ok (err _) = false

-- What a request presents, whichever route it goes to.
abbrev pub presenting : List (String × String) → Option String → Call
presenting cookies authorization = record {
  auth_types = none;
  skip_permissions = none;
  required_permissions = none;
  controller_path = none;
  method = "GET";
  cookies = cookies;
  authorization = authorization;
}

-- The routes, by the path of the controller and the name of the handler, to which a request with these
-- cookies and this header gets through.
unfoldable pub open_to :
    {r : RedisServer}
    → Env
    → World r
    → List (String × String)
    → Option String
    → List (RouteController × Route)
    → List (String × String)
open_to env w cookies authorization [] = []
open_to env w cookies authorization ((c, route) ∷ rest) =
    let later = open_to env w cookies authorization rest in
    if is_ok (enter env w (call_of c route cookies authorization))
    then (c.path, route.name) ∷ later
    else later

-- The routes that are declared public.
declared_open : List (RouteController × Route) → List (String × String)
declared_open [] = []
declared_open ((c, route) ∷ rest) =
    let later = declared_open rest in
    if includes public (override route.auth_types c.auth_types)
    then (c.path, route.name) ∷ later
    else later

abbrev none_optional : List (RouteController × Route) → Bool
none_optional [] = true
none_optional ((c, route) ∷ rest) =
    not (includes optional (override route.auth_types c.auth_types)) && none_optional rest

no_optional : none_optional (all_routes controllers) ≡ true
unfolding all_routes controllers auth_controller user_controller role_controller
    permission_controller error_tracking_controller activity_log_controller app_controller
    health_controller declared_open
no_optional = refl

open_ones :
    declared_open (all_routes controllers)
    ≡ ("auth", "signup")
      ∷ ("auth", "signin")
      ∷ ("auth", "google_signin")
      ∷ ("auth", "refresh_token")
      ∷ ("auth", "verify_email")
      ∷ ("auth", "resend_verification")
      ∷ ("auth", "forgot_password")
      ∷ ("auth", "reset_password")
      ∷ ("app", "app_status")
      ∷ ("health", "db_health")
      ∷ ("health", "get_queue_stats")
      ∷ ("health", "queue_list")
      ∷ []
unfolding all_routes controllers auth_controller user_controller role_controller
    permission_controller error_tracking_controller activity_log_controller app_controller
    health_controller declared_open
open_ones = refl

validate_token-presenting :
    {r : RedisServer} (env : Env) (w : World r) (cookies : List (String × String))
    (authorization : Option String) (c : RouteController) (route : Route)
    → validate_token env w (call_of c route cookies authorization)
      ≡ validate_token env w (presenting cookies authorization)
unfolding validate_token extract_token call_of
validate_token-presenting env w cookies authorization c route = refl

is_ok-enter :
    {r : RedisServer} (env : Env) (w : World r) (e : Failure) (c : Call)
    → validate_token env w c ≡ err e
    → includes optional c.auth_types ≡ false
    → is_ok (enter env w c) ≡ includes public c.auth_types
unfolding enter auth_guard permissions_guard
is_ok-enter env w e c h never = elim (Bool-cases (includes public c.auth_types)) [
  | inl open_ ↦ ground (arith, open_)
  | inr closed ↦ ground (arith, h, never, closed)
]

module _ {r : RedisServer} (env : Env) (w : World r) (cookies : List (String × String))
    (authorization : Option String) (e : Failure)
    (refused : validate_token env w (presenting cookies authorization) ≡ err e) where
  enter-refused :
      (c : RouteController) (route : Route)
      → includes optional (override route.auth_types c.auth_types) ≡ false
      → is_ok (enter env w (call_of c route cookies authorization))
        ≡ includes public (override route.auth_types c.auth_types)
  unfolding call_of
  enter-refused c route =
      is_ok-enter env w e (call_of c route cookies authorization)
        (validate_token-presenting env w cookies authorization c route ∙ refused)

  open_to-declared :
      (routes : List (RouteController × Route))
      → none_optional routes ≡ true
      → open_to env w cookies authorization routes ≡ declared_open routes
  unfolding open_to declared_open
  open_to-declared [] h = refl
  open_to-declared ((c, route) ∷ rest) h =
      ground (arith, enter-refused c route, open_to-declared rest, h)

  -- Whatever the state, a request whose token is missing, banned, over or forged gets through exactly
  -- to these routes.
  pub open_routes :
      open_to env w cookies authorization (all_routes controllers)
      ≡ ("auth", "signup")
        ∷ ("auth", "signin")
        ∷ ("auth", "google_signin")
        ∷ ("auth", "refresh_token")
        ∷ ("auth", "verify_email")
        ∷ ("auth", "resend_verification")
        ∷ ("auth", "forgot_password")
        ∷ ("auth", "reset_password")
        ∷ ("app", "app_status")
        ∷ ("health", "db_health")
        ∷ ("health", "get_queue_stats")
        ∷ ("health", "queue_list")
        ∷ []
  open_routes = open_to-declared (all_routes controllers) no_optional ∙ open_ones
