-- ===== src/Roles/Discovery.antt =====
-- The routes that `SyncAdminPermissionsProvider.discoverPermissionKeys` scans: what NestJS' discovery
-- service, scanner and reflector report of a controller is data here.
use Prim.Native.Char.{code}
use Prim.Native.String
use nestjs_template.Common.{
  ℕ, String, Bool, not, ◌&&◌, ◌||◌, Option, none, some, List, [], ◌∷◌, ◌++◌, ◌===◌, ◌==◌, any,
  truthy, if◌then◌else◌, or_else,
}
use nestjs_template.Text.{capitalize}
use nestjs_template.Hibp.Text.{split_colon, trim}

-- A permission that a route asks for: its key and its display name.
pub record Item : Type 0 where
  pub key : String
  pub name : String

-- A method of a prototype: whether it is a function, and its metadata. `http_method` is the number of
-- NestJS' `RequestMethod`.
pub record Handler : Type 0 where
  pub is_function : Bool
  pub http_method : Option ℕ
  pub skip : Bool
  pub explicit : List String

-- `resolved` tells that the wrapper has both an instance and a type.
pub record Controller : Type 0 where
  pub resolved : Bool
  pub path : Option String
  pub skip : Bool
  pub handlers : List Handler

-- `REQUEST_METHOD_ACTION[method]`
abbrev pub request_method_action : ℕ → Option String
request_method_action m =
    if m == 0
    then some "read"
    else if m == 1
    then some "create"
    else if m == 2 || m == 4
    then some "update"
    else if m == 3
    then some "delete"
    else none

-- The text up to the first colon; `key.split(':')[1]` ends at the second one.
abbrev before_colon : String → String
before_colon s = elim (split_colon s) [ none ↦ s | some (head, tail) ↦ head ]

unfoldable pub key_to_name : String → String
key_to_name key = elim (split_colon key) [
  | none ↦ trim (String.◌++◌ (capitalize key) ": ")
  | some (module_, action) ↦
      trim (String.◌++◌ (capitalize module_) (String.◌++◌ ": " (capitalize (before_colon action))))
]

-- `controllerPath.replace(/^\//, '')`
unfoldable pub resource_of : String → String
resource_of String.[] = ""
resource_of (String.◌∷◌ c s) = if code c == b'/' then s else String.◌∷◌ c s

abbrev pub has_key : List Item → String → Bool
has_key items key = any (λ i. i.key === key) items

-- `if (!seen.has(k)) seen.set(k, …)`: a map keeps the order of insertion.
abbrev pub note : List Item → String → List Item
note seen key =
    if has_key seen key then seen else seen ++ record { key = key; name = key_to_name key } ∷ []

abbrev pub note_all : List Item → List String → List Item
note_all seen [] = seen
note_all seen (key ∷ keys) = note_all (note seen key) keys

-- The keys that one handler asks for.
abbrev pub derived : String → ℕ → List String
derived resource method =
    if truthy resource
    then elim (request_method_action method) [
      | none ↦ []
      | some action ↦ String.◌++◌ resource (String.◌++◌ ":" action) ∷ []
    ]
    else []

abbrev pub asked : String → ℕ → List String → List String
asked resource method [] = derived resource method
asked resource method (key ∷ keys) = key ∷ keys

unfoldable pub handler_keys : String → Bool → Handler → List String
handler_keys resource class_skip h =
    if h.is_function && not (class_skip || h.skip)
    then elim h.http_method [ none ↦ [] | some method ↦ asked resource method h.explicit ]
    else []

unfoldable pub scan_handlers : String → Bool → List Item → List Handler → List Item
scan_handlers resource class_skip seen [] = seen
scan_handlers resource class_skip seen (h ∷ hs) =
    scan_handlers resource class_skip (note_all seen (handler_keys resource class_skip h)) hs

unfoldable pub scan_controllers : List Item → List Controller → List Item
scan_controllers seen [] = seen
scan_controllers seen (c ∷ cs) =
    let after =
      if c.resolved
      then scan_handlers (resource_of (or_else c.path "")) c.skip seen c.handlers
      else seen in
    scan_controllers after cs

-- `discoverPermissionKeys`
unfoldable pub discover_permission_keys : List Controller → List Item
discover_permission_keys controllers = scan_controllers [] controllers
