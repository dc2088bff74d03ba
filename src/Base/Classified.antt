-- ===== src/Base/Classified.antt =====
-- Which answer an error of the database gets.
use nestjs_template.Common.{
  String, ◌≡◌, refl, Bool, true, not, none, some, or_else, List, [], ◌∷◌, any, every, find, ◌===◌,
  arith,
}
use nestjs_template.Text.{contains}
use nestjs_template.Base.Errors.{
  DriverError, query_failed, DbAnswer, query_error, Rule, first_answer, query_rules, sql_message_of,
  classify,
}

-- The rule of a code, whatever the message.
abbrev pub by_code : List Rule → DbAnswer → String → DbAnswer
by_code rules last code = elim (find (λ rule. any (λ c. c === code) rule.codes) rules) [
  | none ↦ last
  | some rule ↦ rule.answer
]

-- The message holds no part that a rule looks for.
abbrev pub is_silent : List Rule → String → Bool
is_silent rules message = every (λ rule. not (any (λ part. contains part message) rule.parts)) rules

first_answer-silent :
    (rules : List Rule) (last : DbAnswer) (code message : String)
    → is_silent rules message ≡ true
    → first_answer last rules code message ≡ by_code rules last code
first_answer-silent [] last code message h = refl
first_answer-silent (rule ∷ rules) last code message h =
    ground (arith, first_answer-silent rules last code message)

-- A failed query whose message holds none of the words that are looked for is answered by its
-- SQLSTATE code alone: by the rule of the code, or as a general query error where no rule has it.
pub classify_code :
    (d : DriverError) (message : String)
    → is_silent query_rules (sql_message_of d message) ≡ true
    → classify (query_failed d message) ≡ by_code query_rules query_error (or_else d.code "")
unfolding classify
classify_code d message h =
    first_answer-silent query_rules query_error (or_else d.code "") (sql_message_of d message) h
