-- ===== src/Base/Errors.antt =====
-- src/common/base/repositories/helpers/async-handler.helper.ts: the answer to an error of the
-- database. What the code asks of the error (`instanceof`, its message) is data here.

use nestjs_template.Common.{
  ℕ, String, Bool, ◌||◌, Option, or_else, List, [], ◌∷◌, any, ◌===◌, truthy, if◌then◌else◌,
}
use nestjs_template.Text.{to_lower, contains}

-- The driver's error under a `QueryFailedError`.
pub record DriverError : Type 0 where
  pub code : Option String
  pub sql_message : Option String
  pub message : Option String

-- What was thrown: the classes that the code tells apart. `mapping_failed` stands for the three ORM
-- mapping errors, `other` for all that is not of TypeORM, an `HttpException` among them.
pub data Thrown : Type 0 where
  query_failed : DriverError → String → Thrown
  mapping_failed : String → Thrown
  orm_failed : String → Thrown
  other : String → Thrown

-- The answers, each with its status.
pub data DbAnswer : Type 0 where
  unique_violation foreign_key not_null check_violation integrity : DbAnswer
  deadlock serialization canceled too_many connection : DbAnswer
  too_long out_of_range invalid_text schema query_error : DbAnswer
  mapping_error orm_error connection_issue timed_out unexpected : DbAnswer

abbrev pub status : DbAnswer → ℕ
status unique_violation = 409
status foreign_key = 409
status not_null = 422
status check_violation = 422
status integrity = 409
status deadlock = 408
status serialization = 408
status canceled = 408
status too_many = 503
status connection = 503
status too_long = 422
status out_of_range = 422
status invalid_text = 422
status schema = 500
status query_error = 500
status mapping_error = 500
status orm_error = 500
status connection_issue = 503
status timed_out = 408
status unexpected = 500

-- A rule: the codes and the parts of the lower-cased message that it fits, and its answer.
pub record Rule : Type 0 where
  pub codes : List String
  pub parts : List String
  pub answer : DbAnswer

abbrev pub fits : String → String → Rule → Bool
fits code message rule =
    any (λ c. c === code) rule.codes || any (λ part. contains part message) rule.parts

abbrev pub first_answer : DbAnswer → List Rule → String → String → DbAnswer
first_answer last [] code message = last
first_answer last (rule ∷ rules) code message =
    if fits code message rule then rule.answer else first_answer last rules code message

abbrev rule : List String → List String → DbAnswer → Rule
rule codes parts answer = record { codes = codes; parts = parts; answer = answer }

-- The tests of a `QueryFailedError`, in their order.
abbrev pub query_rules : List Rule
query_rules =
    rule ("23505" ∷ []) ("duplicate entry" ∷ "er_dup_entry" ∷ "unique constraint" ∷ [])
      unique_violation
    ∷ rule ("23503" ∷ []) ("foreign key" ∷ []) foreign_key
    ∷ rule ("23502" ∷ []) ("not null" ∷ []) not_null
    ∷ rule ("23514" ∷ []) ("check constraint" ∷ []) check_violation
    ∷ rule ("23000" ∷ []) [] integrity
    ∷ rule ("40P01" ∷ []) ("deadlock" ∷ []) deadlock
    ∷ rule ("40001" ∷ []) ("serialization" ∷ []) serialization
    ∷ rule ("57014" ∷ []) ("statement timeout" ∷ []) canceled
    ∷ rule ("53300" ∷ []) ("too many connections" ∷ []) too_many
    ∷ rule ("08000" ∷ "08003" ∷ "08006" ∷ [])
        ("econnrefused" ∷ "connection refused" ∷ "connection terminated" ∷ []) connection
    ∷ rule ("22001" ∷ []) ("value too long" ∷ []) too_long
    ∷ rule ("22003" ∷ []) ("out of range" ∷ []) out_of_range
    ∷ rule ("22P02" ∷ []) ("invalid input syntax" ∷ []) invalid_text
    ∷ rule ("42703" ∷ "42P01" ∷ "42883" ∷ "42601" ∷ []) ("unknown column" ∷ "duplicate column" ∷ [])
        schema
    ∷ []

-- The tests of any other error.
abbrev pub other_rules : List Rule
other_rules =
    rule []
      ("econnrefused" ∷ "connection refused" ∷ "connection terminated" ∷ "econnreset" ∷ "epipe"
        ∷ [])
      connection_issue
    ∷ rule [] ("timeout" ∷ "timed out" ∷ []) timed_out
    ∷ rule [] ("deadlock" ∷ []) deadlock
    ∷ []

-- `driver.sqlMessage ?? driver.message ?? err.message`, in lower case
unfoldable pub sql_message_of : DriverError → String → String
sql_message_of d message = to_lower (or_else d.sql_message (or_else d.message message))

-- `error.message || 'Unknown database error'`
abbrev message_of : String → String
message_of m = if truthy m then m else "Unknown database error"

-- The `catch` block of `handle`.
unfoldable pub classify : Thrown → DbAnswer
classify (query_failed d message) =
    first_answer query_error query_rules (or_else d.code "") (sql_message_of d message)
classify (mapping_failed _) = mapping_error
classify (orm_failed _) = orm_error
classify (other message) = first_answer unexpected other_rules "" (to_lower (message_of message))

-- What an operation on the database, run by `handle`, returns or throws; the thrown error response
-- has the status.
pub data Handled (A : Type 0) : Type 0 where
  returned : A → Handled A
  responded : DbAnswer → Handled A

pub data Outcome (A : Type 0) : Type 0 where
  returns : A → Outcome A
  throws : Thrown → Outcome A

abbrev pub handle : {A : Type 0} → Outcome A → Handled A
handle (returns a) = returned a
handle (throws e) = responded (classify e)
