-- ===== src/Pipes.antt =====
-- src/common/pipes/validation.utils.ts and validation.pipe.ts: the errors of a DTO, as class-validator
-- reports them, become the fields and messages of an answer.
pub mod Text
pub mod Priority
pub mod Flattened
use Prim.Native.String
use nestjs_template.Common.{
  ℕ, String, Bool, true, false, Option, none, some, List, [], ◌∷◌, ◌++◌, leb, ◌===◌, truthy,
  if◌then◌else◌, or_else,
}
use nestjs_template.Filters.{FieldError, Fault, Payload, Exception}
use nestjs_template.Pipes.Text.{prettify_field_name, replace_all}

-- An entry of `constraints`; a message that is no text is `none`.
pub record Constraint : Type 0 where
  pub name : String
  pub message : Option String

-- src/common/pipes/interfaces/validation-error.interface.ts: the property, the constraints, and the
-- children, of which there are none where they are undefined.
mutual
  pub data ValidationError : Type 0 where
    invalid : String → Option (List Constraint) → Errors → ValidationError

  pub data Errors : Type 0 where
    nil : Errors
    cons : ValidationError → Errors → Errors

-- CONSTRAINT_PRIORITY, and 99 for any other name
abbrev priorities : List (String × ℕ)
priorities =
    ("isDefined", 0)
    ∷ ("isNotEmpty", 1)
    ∷ ("isString", 2)
    ∷ ("isNumber", 2)
    ∷ ("isBoolean", 2)
    ∷ ("isArray", 2)
    ∷ ("isObject", 2)
    ∷ ("isDate", 2)
    ∷ ("isEnum", 2)
    ∷ ("isEmail", 2)
    ∷ ("isUrl", 2)
    ∷ ("isUuid", 2)
    ∷ ("isInt", 2)
    ∷ ("minLength", 3)
    ∷ ("isLength", 3)
    ∷ ("min", 3)
    ∷ ("maxLength", 4)
    ∷ ("max", 4)
    ∷ []

abbrev priority_in : String → List (String × ℕ) → ℕ
priority_in name [] = 99
priority_in name ((n, p) ∷ rest) = if n === name then p else priority_in name rest

unfoldable pub priority : Constraint → ℕ
priority c = priority_in c.name priorities

-- `entries.sort(…)`, which is stable
unfoldable pub insert_by : (Constraint → ℕ) → Constraint → List Constraint → List Constraint
insert_by f x [] = x ∷ []
insert_by f x (y ∷ ys) =
    let later = insert_by f x ys in if leb (f x) (f y) then x ∷ y ∷ ys else y ∷ later

unfoldable pub sort_by : (Constraint → ℕ) → List Constraint → List Constraint
unfolding insert_by
sort_by f [] = []
sort_by f (x ∷ xs) = insert_by f x (sort_by f xs)

-- `.find(([, msg]) => typeof msg === 'string')?.[1]`
unfoldable pub find_message : List Constraint → Option String
find_message [] = none
find_message (c ∷ cs) = elim c.message [ none ↦ find_message cs | some m ↦ some m ]

unfoldable pub first_message : List Constraint → Option String
unfolding sort_by find_message priority
first_message cs = find_message (sort_by priority cs)

-- `parentPath ? `${parentPath}.${property}` : property`
abbrev pub path_below : String → String → String
path_below parent property =
    if truthy parent then String.◌++◌ parent (String.◌++◌ "." property) else property

-- The entry of one node.
abbrev pub entry : String → String → Option String → List FieldError
entry path property none = []
entry path property (some message) =
    if truthy message
    then record { field = path; message = replace_all property (prettify_field_name path) message }
      ∷ []
    else []

unfoldable pub entries_of : String → String → Option (List Constraint) → List FieldError
unfolding first_message
entries_of path property none = []
entries_of path property (some constraints) = entry path property (first_message constraints)

-- `extractValidationErrors`, the ancestors' path first
unfoldable mutual
  pub extract_validation_errors : String → Errors → List FieldError
  extract_validation_errors parent nil = []
  extract_validation_errors parent (cons e es) =
      extract_error parent e ++ extract_validation_errors parent es

  pub extract_error : String → ValidationError → List FieldError
  extract_error parent (invalid property constraints children) =
      entries_of (path_below parent property) property constraints
      ++ extract_validation_errors (path_below parent property) children

-- `formattedErrors.length ? formattedErrors : […]`
abbrev pub or_unknown : List FieldError → List FieldError
or_unknown [] = record { field = "unknown"; message = "Invalid request data" } ∷ []
or_unknown (x ∷ xs) = x ∷ xs

-- The `exceptionFactory` of `validationPipe`: a `BadRequestException`.
unfoldable pub exception_factory : Errors → Fault → Exception
exception_factory errors f =
    Exception.http 400
      (Payload.object (some "Validation Error")
        (some (or_unknown (extract_validation_errors "" errors))))
      f
