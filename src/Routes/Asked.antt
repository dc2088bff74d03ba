-- ===== src/Routes/Asked.antt =====
-- Whether the scan of the routes finds what the permission guard asks for.
use Prim.Native.Char.{Char, code}
use Prim.Native.String
use nestjs_template.Common.{
  ℕ, String, ◌≡◌, refl, sym, ap, ◌∙◌, Bool, true, false, not, ◌||◌, Option, none, some, or_else,
  List, [], ◌∷◌, map, every, All, Has, here, there, any-Has, All-has, ◌===◌, ◌==◌, ==_iff, eq_iff,
  truthy, Option-cases, ◌⊎◌, ok, if◌then◌else◌, Bool-cases, inl, inr, arith,
}
use mathlib.Core.Path.{subst}
use text.Mathlib.TextEquality.{Char-path}
use nestjs_template.Permissions.Manage.Rows.{Has-map}
use nestjs_template.Routes.Scanned.{scan_controllers-added}
use nestjs_template.State.{UserPayload}
use nestjs_template.Client.{take_text}
use nestjs_template.Hibp.Text.{drop_text}
use nestjs_template.Guards.{Call, action_of, required, holds, permissions_guard, is_empty}
use nestjs_template.Guards.{resource_of as guard_resource}
use nestjs_template.Roles.Discovery.{
  handler_keys, discover_permission_keys, resource_of, derived, asked,
}
use nestjs_template.Routes.{
  Verb, get, post, put, patch, delete, verb_name, verb_number, Route, RouteController, call_of,
  handler_of, scanned, override, list_or_nil, true_or_false,
}

-- The number of the first character.
first_code : String → ℕ
first_code String.[] = 0
first_code (String.◌∷◌ c s) = code c

slash : (c : Char) → (String.◌∷◌ c "" === "/") ≡ (code c == b'/')
unfolding first_code
slash c = elim (Bool-cases (code c == b'/')) [
  | inl e ↦
      let is_slash : c ≡ String.char_at "/" 0 = Char-path c _ ((==_iff (code c) b'/').0 e) in
      rw is_slash refl
  | inr e ↦ elim (Bool-cases (String.◌∷◌ c "" === "/")) [
    | inl f ↦
        let same : code c ≡ b'/' = ap first_code ((eq_iff (String.◌∷◌ c "") "/").0 f) in
        absurd (ground (arith, e, same))
    | inr f ↦ f ∙ sym e
  ]
]

-- The guard and the scan drop the same slash.
guard_resource-resource_of : (path : String) → guard_resource path ≡ resource_of path
unfolding guard_resource resource_of take_text drop_text
guard_resource-resource_of String.[] = refl
guard_resource-resource_of (String.◌∷◌ c s) = ap (λ b. if b then s else String.◌∷◌ c s) (slash c)

-- The guard and the scan have the same actions.
asked_keys : String → Route → List String
asked_keys resource r =
    let explicit = list_or_nil r.permissions in
    if not (is_empty explicit)
    then explicit
    else String.◌++◌ resource (String.◌++◌ ":" (action_of (verb_name r.verb))) ∷ []

handler_keys-asked :
    (resource : String) (class_skip : Bool) (r : Route)
    → truthy resource ≡ true
    → class_skip || true_or_false r.skip ≡ false
    → handler_keys resource class_skip (handler_of r) ≡ asked_keys resource r
unfolding handler_keys handler_of asked_keys action_of
handler_keys-asked resource class_skip r named_ asked_ =
    rw asked_ (elim (Option-cases r.permissions) [
      | inl e ↦ rw e (by_verb r.verb)
      | inr (keys, e) ↦ rw e (by_keys keys)
    ])
  where
    by_verb :
        (v : Verb)
        → derived resource (verb_number v)
          ≡ String.◌++◌ resource (String.◌++◌ ":" (action_of (verb_name v))) ∷ []
    by_verb get = rw named_ refl
    by_verb post = rw named_ refl
    by_verb put = rw named_ refl
    by_verb patch = rw named_ refl
    by_verb delete = rw named_ refl

    by_keys :
        (keys : List String)
        → asked resource (verb_number r.verb) keys ≡ (
            if not (is_empty keys)
            then keys
            else String.◌++◌ resource (String.◌++◌ ":" (action_of (verb_name r.verb))) ∷ [])
    by_keys [] = by_verb r.verb
    by_keys (key ∷ keys) = refl

-- `@SkipPermissions()` sets `true`, and no class has `@RequirePermissions`.
pub record IsDeclared (c : RouteController) : Type 0 where
  pub no_permissions : c.permissions ≡ none
  pub resource : truthy (resource_of c.path) ≡ true
  pub skips : (r : Route) → Has r c.routes → (r.skip ≡ none) ⊎ (r.skip ≡ some true)

required-asked :
    (c : RouteController) (r : Route) (cookies : List (String × String))
    (authorization : Option String)
    → c.permissions ≡ none
    → required (call_of c r cookies authorization) ≡ asked_keys (resource_of c.path) r
unfolding required call_of asked_keys
required-asked c r cookies authorization no_permissions =
    rw (no_permissions, guard_resource-resource_of c.path)
      (elim (Option-cases r.permissions) [ inl e ↦ rw e refl | inr (keys, e) ↦ rw e refl ])

skip_cases :
    (class_skip skip : Option Bool)
    → (skip ≡ none) ⊎ (skip ≡ some true)
    → or_else (override skip class_skip) false ≡ (true_or_false class_skip || true_or_false skip)
skip_cases none skip (inl e) = rw e refl
skip_cases (some b) skip (inl e) = rw e (or_false b)
  where
    or_false : (b : Bool) → b ≡ (b || false)
    or_false true = refl
    or_false false = refl
skip_cases none skip (inr e) = rw e refl
skip_cases (some b) skip (inr e) = rw e (or_true b)
  where
    or_true : (b : Bool) → true ≡ (b || true)
    or_true true = refl
    or_true false = refl

every-of_Has :
    {A : Type 0} (p : A → Bool) (xs : List A)
    → ((a : A) → Has a xs → p a ≡ true)
    → every p xs ≡ true
every-of_Has p [] h = refl
every-of_Has p (x ∷ xs) h = rw (h x here, every-of_Has p xs (λ a m. h a (there m))) refl

call_skip :
    (c : RouteController) (r : Route) (cookies : List (String × String))
    (authorization : Option String)
    → or_else (call_of c r cookies authorization).skip_permissions false
      ≡ or_else (override r.skip c.skip) false
unfolding call_of
call_skip c r cookies authorization = refl

passes :
    (call : Call) (user : Option UserPayload)
    → (or_else call.skip_permissions false ≡ true) ⊎ (every (holds user) (required call) ≡ true)
    → permissions_guard call user ≡ ok tt
unfolding permissions_guard
passes call user (inl h) = ground (arith, h)
passes call user (inr h) = ground (arith, h)

-- The items of a scan that a user holds are all that the guard asks the user for.
holds_asked :
    (cs : List RouteController) (u : UserPayload)
    → All (λ i. holds (some u) i.key ≡ true) (discover_permission_keys (map scanned cs))
    → (c : RouteController) → Has c cs
    → IsDeclared c
    → (r : Route) → Has r c.routes
    → true_or_false c.skip || true_or_false r.skip ≡ false
    → every (holds (some u)) (asked_keys (resource_of c.path) r) ≡ true
unfolding discover_permission_keys
holds_asked cs u held c in_cs declared r in_c not_skipped =
    every-of_Has (holds (some u)) (asked_keys (resource_of c.path) r) (λ k m.
      let of_scan : Has k
          (handler_keys (resource_of c.path) (true_or_false c.skip) (handler_of r)) =
        subst (Has k)
          (sym (
            handler_keys-asked (resource_of c.path) (true_or_false c.skip) r declared.resource
              not_skipped))
          m in
      let (i, in_items, same) =
        any-Has (λ i. i.key === k) _
          (scan_controllers-added cs [] c (handler_of r) k in_cs (Has-map handler_of in_c)
            of_scan) in
      subst (λ j. holds (some u) j ≡ true) ((eq_iff i.key k).0 same)
        (All-has (λ i. holds (some u) i.key ≡ true) held in_items))

-- Every route lets the permissions of the scan through.
pub permissions_guard-scanned :
    (cs : List RouteController) (u : UserPayload) (cookies : List (String × String))
    (authorization : Option String)
    → All (λ i. holds (some u) i.key ≡ true) (discover_permission_keys (map scanned cs))
    → (c : RouteController) → Has c cs
    → IsDeclared c
    → (r : Route) → Has r c.routes
    → permissions_guard (call_of c r cookies authorization) (some u) ≡ ok tt
unfolding permissions_guard
permissions_guard-scanned cs u cookies authorization held c in_cs declared r in_c =
    let call = call_of c r cookies authorization in
    let skip = skip_cases c.skip r.skip (declared.skips r in_c) in
    elim (Bool-cases (true_or_false c.skip || true_or_false r.skip)) [
      | inl skipped ↦
          passes call (some u) (inl (call_skip c r cookies authorization ∙ skip ∙ skipped))
      | inr not_skipped ↦ passes call (some u) (
          inr (
            ap (every (holds (some u)))
              (required-asked c r cookies authorization declared.no_permissions)
            ∙ holds_asked cs u held c in_cs declared r in_c not_skipped))
    ]
