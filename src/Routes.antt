-- ===== src/Routes.antt =====
-- The routes of the HTTP controllers: what the decorators of a class and of its handlers tell NestJS,
-- and the method and the key by which a handler answers. The guards and the scan of the routes read it.
pub mod Table
pub mod Open
pub mod Scanned
pub mod Asked
pub mod Admin
use nestjs_template.Common.{
  ℕ, String, Bool, true, false, Option, none, some, List, [], ◌∷◌, map, if◌then◌else◌,
}
use nestjs_template.Response.Errors.{SuccessMethod}
use nestjs_template.Guards.{AuthType, public, Call}
use nestjs_template.Roles.Discovery.{Handler, Controller}

pub data Verb : Type 0 where
  get post put patch delete : Verb

-- The metadata of a handler. `key` is the message key of its answer, by the query parameter `force`.
pub record Route : Type 0 where
  pub name : String
  pub verb : Verb
  pub path : String
  pub auth_types : Option (List AuthType)
  pub skip : Option Bool
  pub permissions : Option (List String)
  pub is_limited : Bool
  pub method : SuccessMethod
  pub key : Bool → String

-- The metadata of a class, and the module of its answers.
pub record RouteController : Type 0 where
  pub path : String
  pub auth_types : Option (List AuthType)
  pub skip : Option Bool
  pub permissions : Option (List String)
  pub module_ : String
  pub routes : List Route

-- A handler with the decorator of its verb only.
abbrev pub route : String → Verb → String → SuccessMethod → String → Route
route name verb path method key = record {
  name = name;
  verb = verb;
  path = path;
  auth_types = none;
  skip = none;
  permissions = none;
  is_limited = false;
  method = method;
  key = λ _. key;
}

-- `@Auth(AuthType.None)`
abbrev pub open_route : Route → Route
open_route r = record r { auth_types = some (public ∷ []) }

-- `@RequirePermissions(key)`
abbrev pub requires : String → Route → Route
requires key r = record r { permissions = some (key ∷ []) }

-- `@RateLimit(…)` with `@UseGuards(RateLimitGuard)`
abbrev pub limited : Route → Route
limited r = record r { is_limited = true }

-- `key: force ? hard : key`
abbrev pub forced : String → Route → Route
forced hard r = record r { key = λ force. if force then hard else r.key force }

-- The method of a request, and the number of NestJS' `RequestMethod`.
abbrev pub verb_name : Verb → String
verb_name get = "GET"
verb_name post = "POST"
verb_name put = "PUT"
verb_name patch = "PATCH"
verb_name delete = "DELETE"

abbrev pub verb_number : Verb → ℕ
verb_number get = 0
verb_number post = 1
verb_number put = 2
verb_number delete = 3
verb_number patch = 4

-- `getAllAndOverride(key, [handler, class])`
abbrev pub override {ℓ} : {A : Type ℓ} → Option A → Option A → Option A
override none of_class = of_class
override (some a) of_class = some a

-- A request to a route, with its cookies and its authorization header.
unfoldable pub call_of : RouteController → Route → List (String × String) → Option String → Call
call_of c r cookies authorization = record {
  auth_types = override r.auth_types c.auth_types;
  skip_permissions = override r.skip c.skip;
  required_permissions = override r.permissions c.permissions;
  controller_path = some c.path;
  method = verb_name r.verb;
  cookies = cookies;
  authorization = authorization;
}

abbrev pub list_or_nil {ℓ} : {A : Type ℓ} → Option (List A) → List A
list_or_nil none = []
list_or_nil (some xs) = xs

abbrev pub true_or_false : Option Bool → Bool
true_or_false none = false
true_or_false (some b) = b

-- What the scan of the routes sees of a handler and of a class.
unfoldable pub handler_of : Route → Handler
handler_of r = record {
  is_function = true;
  http_method = some (verb_number r.verb);
  skip = true_or_false r.skip;
  explicit = list_or_nil r.permissions;
}

unfoldable pub scanned : RouteController → Controller
scanned c = record {
  resolved = true;
  path = some c.path;
  skip = true_or_false c.skip;
  handlers = map handler_of c.routes;
}
