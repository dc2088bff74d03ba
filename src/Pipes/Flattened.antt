-- ===== src/Pipes/Flattened.antt =====
-- The entries of a tree of errors, and what a client gets of them.

use nestjs_template.Common.{
  String, ◌≡◌, refl, sym, ap, ◌∙◌, Option, none, some, List, [], ◌∷◌, ◌++◌, truthy, if◌then◌else◌,
}
use nestjs_template.Filters.{
  FieldError, Fault, AppRequest, FilterEnv, Watched, body_of, watch, catch,
}
use nestjs_template.Pipes.{
  Constraint, ValidationError, Errors, invalid, nil, cons, path_below, entry, entries_of,
  or_unknown, extract_validation_errors, extract_error, exception_factory,
}
use nestjs_template.Pipes.Text.{prettify_field_name, replace_all}
use nestjs_template.Pipes.Priority.{best, message_of, first_message-best}

-- A node with the path to it.
pub record Node : Type 0 where
  pub path : String
  pub property : String
  pub constraints : Option (List Constraint)

-- The nodes of a tree: each before those below it.
unfoldable mutual
  pub nodes : String → Errors → List Node
  nodes parent nil = []
  nodes parent (cons e es) = nodes_of parent e ++ nodes parent es

  pub nodes_of : String → ValidationError → List Node
  nodes_of parent (invalid property constraints children) =
      record { path = path_below parent property; property = property; constraints = constraints }
      ∷ nodes (path_below parent property) children

abbrev shown_of : Option (List Constraint) → Option String
shown_of none = none
shown_of (some cs) = message_of (best cs)

-- A node is reported by its path with the message of its best constraint.
unfoldable pub report : Node → List FieldError
report n = elim (shown_of n.constraints) [
  | none ↦ []
  | some m ↦
      if truthy m
      then record {
        field = n.path;
        message = replace_all n.property (prettify_field_name n.path) m;
      }
        ∷ []
      else []
]

unfoldable pub report_all : List Node → List FieldError
report_all [] = []
report_all (n ∷ ns) = report n ++ report_all ns

append-append : {A : Type 0} (xs ys zs : List A) → (xs ++ ys) ++ zs ≡ xs ++ (ys ++ zs)
append-append [] ys zs = refl
append-append (x ∷ xs) ys zs = ap (λ l. x ∷ l) (append-append xs ys zs)

report_all-append : (ms ns : List Node) → report_all (ms ++ ns) ≡ report_all ms ++ report_all ns
unfolding report_all
report_all-append [] ns = refl
report_all-append (m ∷ ms) ns =
    ap (λ x. report m ++ x) (report_all-append ms ns)
    ∙ sym (append-append (report m) (report_all ms) (report_all ns))

entries_of-report :
    (path property : String) (constraints : Option (List Constraint))
    → entries_of path property constraints
      ≡ report (record { path = path; property = property; constraints = constraints })
unfolding entries_of report
entries_of-report path property none = refl
entries_of-report path property (some cs) =
    ap (entry path property) (first_message-best cs) ∙ go (message_of (best cs))
  where
    go :
        (o : Option String)
        → entry path property o ≡ elim o [
          | none ↦ []
          | some m ↦
              if truthy m
              then record {
                field = path;
                message = replace_all property (prettify_field_name path) m;
              }
                ∷ []
              else []
        ]
    go none = refl
    go (some m) = refl

mutual
  unfolding extract_validation_errors nodes report_all

  extract-nodes :
      (parent : String) (es : Errors)
      → extract_validation_errors parent es ≡ report_all (nodes parent es)
  extract-nodes parent nil = refl
  extract-nodes parent (cons e es) =
      ap (λ x. x ++ extract_validation_errors parent es) (extract-nodes_of parent e)
      ∙ ap (λ x. report_all (nodes_of parent e) ++ x) (extract-nodes parent es)
      ∙ sym (report_all-append (nodes_of parent e) (nodes parent es))

  extract-nodes_of :
      (parent : String) (e : ValidationError)
      → extract_error parent e ≡ report_all (nodes_of parent e)
  extract-nodes_of parent (invalid property constraints children) =
      ap (λ x. x ++ extract_validation_errors (path_below parent property) children)
        (entries_of-report (path_below parent property) property constraints)
      ∙ ap
          (λ x.
            report (record {
              path = path_below parent property;
              property = property;
              constraints = constraints;
            })
            ++ x)
          (extract-nodes (path_below parent property) children)

-- A failed validation is answered with 400, is neither logged nor tracked, and names each node of the
-- tree, before those below it, by its path, with the message of the first of its constraints with the
-- least number if that is a text that is not empty; no entry at all is one for an unknown field.
pub catch-exception_factory :
    (env : FilterEnv) (errors : Errors) (f : Fault) (req : AppRequest) (s : Watched)
    → let answer = catch env (exception_factory errors f) req s in
      (answer.0.line ≡ 400)
      × (answer.0.body.errors ≡ some (or_unknown (report_all (nodes "" errors))))
      × (answer.1 ≡ s)
unfolding catch body_of watch exception_factory
catch-exception_factory env errors f req s =
    (refl, ap (λ x. some (or_unknown x)) (extract-nodes "" errors), refl)
