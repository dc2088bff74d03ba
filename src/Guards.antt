-- ===== src/Guards.antt =====
-- The guards of a route: src/modules/auth/guards. Metadata of the handler and of its class is what
-- the decorators set (`none` where neither does); a guard answers `true` or throws.
pub mod Access
pub mod Revoked
use Prim.Native.String
use nestjs_template.Common.{
  ℕ, String, Bool, true, false, not, ◌&&◌, ◌||◌, Option, none, some, or_else, List, [], ◌∷◌, any,
  every, truthy, truthy_option, ◌===◌, is_some, if◌then◌else◌, Result, ok, err, Failure, Key, http,
  authentication_required, unauthorized, token_expired, insufficient_permissions, permission_denied,
}
use nestjs_template.Redis.{RedisServer, blacklist, exists}
use nestjs_template.State.{World, Env, JwtPayload, UserPayload, Verified, valid, expired, malformed}
use nestjs_template.Jwt.{verify_access_token}
use nestjs_template.Client.{take_text}
use nestjs_template.Hibp.Text.{drop_text}

-- src/modules/auth/enums/auth-type.enum.ts
pub data AuthType : Type 0 where
  bearer public optional : AuthType

abbrev pub same_auth : AuthType → AuthType → Bool
same_auth bearer bearer = true
same_auth public public = true
same_auth optional optional = true
same_auth _ _ = false

-- What the guards read of a request and its route.
pub record Call : Type 0 where
  pub auth_types : Option (List AuthType)
  pub skip_permissions : Option Bool
  pub required_permissions : Option (List String)
  pub controller_path : Option String
  pub method : String
  pub cookies : List (String × String)
  pub authorization : Option String

-- `cookies[name]`
unfoldable pub cookie_named : String → List (String × String) → Option String
cookie_named name [] = none
cookie_named name ((n, v) ∷ rest) =
    let later = cookie_named name rest in if name === n then some v else later

abbrev pub cookie_token : Call → Option String
cookie_token c = cookie_named "accessToken" c.cookies

abbrev pub includes : AuthType → Option (List AuthType) → Bool
includes a none = false
includes a (some types) = any (same_auth a) types

-- `auth.startsWith('Bearer ')`
unfoldable pub is_bearer : Option String → Bool
is_bearer none = false
is_bearer (some h) = take_text 7 h === "Bearer "

-- `JwtAuthGuard.extractToken`
unfoldable pub extract_token : Call → Option String
unfolding cookie_named
extract_token c =
    if truthy_option (cookie_token c)
    then cookie_token c
    else if is_bearer c.authorization
    then some (drop_text 7 (or_else c.authorization ""))
    else none

-- The user that a verified payload becomes.
abbrev pub user_of : JwtPayload → UserPayload
user_of p = record {
  id = p.sub;
  name = p.name;
  email = p.email;
  role_id = p.role_id;
  role_key = p.role_key;
  permissions = some (or_else p.permissions []);
  family_id = p.family_id;
  session_id = p.session_id;
}

module _ {r : RedisServer} (env : Env) (w : World r) where
  -- `JwtAuthGuard.validateRequest`: the user that is put on the request.
  unfoldable pub validate_token : Call → Result UserPayload
  validate_token c = elim (extract_token c) [
    | none ↦ err (http 401 authentication_required)
    | some token ↦
        if not (truthy token)
        then err (http 401 authentication_required)
        else if exists r w.now (blacklist token) w.redis
        then err (http 401 unauthorized)
        else elim (verify_access_token env w.now token) [
          | valid p ↦ ok (user_of p)
          | expired ↦ err (http 401 token_expired)
          | malformed ↦ err (http 401 unauthorized)
        ]
  ]

  -- `BaseAuthGuard.handleAuthError`: the guards of this code throw no 403 here.
  abbrev pub hide_error : Result UserPayload → Result (Option UserPayload)
  hide_error (ok u) = ok (some u)
  hide_error (err e) = err (http 401 unauthorized)

  abbrev pub keep_error : Result UserPayload → Result (Option UserPayload)
  keep_error (ok u) = ok (some u)
  keep_error (err e) = err e

  -- `BaseAuthGuard.canActivate` with `AuthGuard`'s two methods. No metadata is `Bearer`.
  unfoldable pub auth_guard : Call → Result (Option UserPayload)
  auth_guard c =
      if includes public c.auth_types
      then ok none
      else if includes optional c.auth_types
      then (if is_bearer c.authorization || truthy_option (cookie_token c)
          then keep_error (validate_token c)
          else ok none)
      else if includes bearer (some (or_else c.auth_types (bearer ∷ [])))
      then hide_error (validate_token c)
      else err (http 401 unauthorized)

-- METHOD_ACTION_MAP, and `read` for any other method
unfoldable pub action_of : String → String
action_of method =
    if method === "GET"
    then "read"
    else if method === "POST"
    then "create"
    else if method === "PATCH"
    then "update"
    else if method === "PUT"
    then "update"
    else if method === "DELETE"
    then "delete"
    else "read"

-- `controllerPath.replace(/^\//, '')`
unfoldable pub resource_of : String → String
resource_of path = if take_text 1 path === "/" then drop_text 1 path else path

abbrev pub is_empty {ℓ} : {A : Type ℓ} → List A → Bool
is_empty [] = true
is_empty (_ ∷ _) = false

-- The permissions that a call needs: the explicit ones, or the one of the resource and the method.
unfoldable pub required : Call → List String
required c =
    let explicit = or_else c.required_permissions [] in
    if not (is_empty explicit)
    then explicit
    else String.◌++◌ (resource_of (or_else c.controller_path ""))
        (String.◌++◌ ":" (action_of c.method))
      ∷ []

abbrev pub holds : Option UserPayload → String → Bool
holds none p = false
holds (some u) p = any (λ q. q === p) (or_else u.permissions [])

-- `PermissionsGuard.canActivate`
unfoldable pub permissions_guard : Call → Option UserPayload → Result (Unit {0})
permissions_guard c user =
    if includes public c.auth_types
    then ok tt
    else if or_else c.skip_permissions false
    then ok tt
    else if every (holds user) (required c)
    then ok tt
    else err (http 403 insufficient_permissions)

-- `AdminGuard.canActivate`
unfoldable pub admin_guard : Option UserPayload → Result (Unit {0})
admin_guard user =
    let key : Option String = elim user [ none ↦ none | some u ↦ u.role_key ] in
    if truthy_option key && or_else key "" === "admin"
    then ok tt
    else err (http 403 permission_denied)

-- The guards in the order in which src/modules/app registers them.
unfoldable pub enter : {r : RedisServer} → Env → World r → Call → Result (Option UserPayload)
enter env w c = elim (auth_guard env w c) [
  | err e ↦ err e
  | ok user ↦ elim (permissions_guard c user) [ err e ↦ err e | ok _ ↦ ok user ]
]
