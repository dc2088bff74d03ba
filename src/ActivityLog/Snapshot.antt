-- ===== src/ActivityLog/Snapshot.antt =====
-- src/modules/activity-log/utils/snapshot.util.ts and decorators/sensitive.decorator.ts: what of a value
-- is written to the log. A value of JavaScript is a tree in which objects and arrays have an
-- identity; a reference back to an enclosing object is `back`.
pub mod Redacted
use Prim.Native.String
use nestjs_template.Common.{
  ℕ, suc, String, Bool, true, false, not, Option, none, some, List, [], ◌∷◌, any, member, ◌===◌,
  ◌&&◌, ◌||◌, ltb, truthy, if◌then◌else◌,
}

-- `instance` has the names that `@Sensitive()` marks in its class. A date is its ISO text, a big
-- integer its digits, and an error its name and message. `opaque` is a function, a symbol or
-- `undefined`.
mutual
  pub data Value : Type 0 where
    null opaque : Value
    boolean : Bool → Value
    number : ℕ → Value
    text : String → Value
    big : String → Value
    date : String → Value
    fault : String → String → Value
    array : ℕ → Items → Value
    instance_ : ℕ → List String → Fields → Value
    back : ℕ → Value

  pub data Items : Type 0 where
    nil : Items
    cons : Value → Items → Items

  pub data Fields : Type 0 where
    end : Fields
    field : String → Value → Fields → Fields

-- What `JSON.parse` answers.
mutual
  pub data Json : Type 0 where
    j_null : Json
    j_boolean : Bool → Json
    j_number : ℕ → Json
    j_text : String → Json
    j_array : Jsons → Json
    j_object : Entries → Json

  pub data Jsons : Type 0 where
    j_nil : Jsons
    j_cons : Json → Jsons → Jsons

  pub data Entries : Type 0 where
    j_end : Entries
    j_entry : String → Json → Entries → Entries

-- AUTO_REDACT_FIELDS
abbrev pub auto_redact_fields : List String
auto_redact_fields = "password" ∷ "passwordHash" ∷ "token" ∷ "accessToken" ∷ "refreshToken" ∷ []

abbrev pub has_text : List String → String → Bool
has_text names key = any (λ n. n === key) names

-- `isSensitiveField`, with the marked names of the prototype
unfoldable pub is_sensitive_field : List String → String → Bool
is_sensitive_field marked key = has_text auto_redact_fields key || has_text marked key

-- The test of the replacer: `key !== '' && isSensitiveField(this, key)`
abbrev pub is_redacted : List String → String → Bool
is_redacted marked key = truthy key && is_sensitive_field marked key

-- `JSON.stringify(value, replacer)` and `JSON.parse`, with the objects that were seen before; `none`
-- is a value that is left out.
unfoldable mutual
  pub convert : List ℕ → Value → Option Json × List ℕ
  convert seen null = (some j_null, seen)
  convert seen opaque = (none, seen)
  convert seen (boolean b) = (some (j_boolean b), seen)
  convert seen (number n) = (some (j_number n), seen)
  convert seen (text s) = (some (j_text s), seen)
  convert seen (big digits) = (some (j_text digits), seen)
  convert seen (date iso) = (some (j_text iso), seen)
  convert seen (fault name message) = (
    some (j_object (j_entry "name" (j_text name) (j_entry "message" (j_text message) j_end))),
    seen,
  )
  convert seen (array id items) = elim (member seen id) [
    | true ↦ (some (j_text "[Circular]"), seen)
    | false ↦ let (js, after) = convert_items (id ∷ seen) items in (some (j_array js), after)
  ]
  convert seen (instance_ id marked fields) = elim (member seen id) [
    | true ↦ (some (j_text "[Circular]"), seen)
    | false ↦
        let (js, after) = convert_fields (id ∷ seen) marked fields in (some (j_object js), after)
  ]
  convert seen (back id) = (some (j_text "[Circular]"), seen)

  pub convert_items : List ℕ → Items → Jsons × List ℕ
  convert_items seen nil = (j_nil, seen)
  convert_items seen (cons v vs) =
      let (j, after) = convert seen v in
      let (js, last) = convert_items after vs in
      (j_cons (elim j [ none ↦ j_null | some x ↦ x ]) js, last)

  pub convert_fields : List ℕ → List String → Fields → Entries × List ℕ
  convert_fields seen marked end = (j_end, seen)
  convert_fields seen marked (field key v fields) = elim (is_redacted marked key) [
    | true ↦
        let (js, last) = convert_fields seen marked fields in
        (j_entry key (j_text "[REDACTED]") js, last)
    | false ↦
        let (j, after) = convert seen v in
        let (js, last) = convert_fields after marked fields in
        (elim j [ none ↦ js | some x ↦ j_entry key x js ], last)
  ]

abbrev pub json_length : Jsons → ℕ
json_length j_nil = 0
json_length (j_cons _ js) = suc (json_length js)

-- What is logged of the parsed value.
abbrev pub wrapped : Json → Json
wrapped (j_object fields) = j_object fields
wrapped (j_array (j_cons first js)) =
    if ltb 5 (suc (json_length js))
    then j_object (
        j_entry "_arrayLength" (j_number (suc (json_length js))) (j_entry "_firstItem" first j_end))
    else j_array (j_cons first js)
wrapped (j_array j_nil) = j_array j_nil
wrapped j = j_object (j_entry "value" j j_end)

abbrev pub wrapped_option : Option Json → Option Json
wrapped_option none = none
wrapped_option (some j) = some (wrapped j)

-- `snapshot`
unfoldable pub snapshot : Value → Option Json
unfolding convert
snapshot null = none
snapshot opaque = none
snapshot v = wrapped_option (convert [] v).0
