-- ===== src/Examples/Answers.antt =====
-- The theorems on the answers of the application and of other services, applied.
use nestjs_template.Common.{
  if-true, if-false, or_true, some-inverse, all_different, member, ==_refl, ℕ, zero, suc, ◌<◌, ◌≤◌,
  String, ◌≡◌, inl, inr, refl, sym, ap, ◌∙◌, true, Option, none, some, List, [], ◌∷◌, map, ◌==◌,
  ==_iff, ◌===◌, eq_iff, Bool-cases, arith, if◌then◌else◌,
}
use nestjs_template.HttpClient.{
  HttpClient, object, number, field, end, configure, Thrown, plain, AxiosResponse, Attempt,
  answered, failed, Retrying, respond, handle_request,
}
use nestjs_template.Response.{ResponseParams, Incoming, absent, http_status, status_of, code_in}
use nestjs_template.Response.Errors.{not_found, error_response}
use nestjs_template.Filters.{Exception, Fault, AppRequest, FilterEnv, Watched, catch, catch_all}
use nestjs_template.Filters.Relayed.{exception_of, KnowsNames, IsRelayed, catch-error_response}
use nestjs_template.Filters.Alerted.{catch_all-once}
use nestjs_template.ErrorTracking.{build_fingerprint, top_frame, is_storable}
use nestjs_template.ErrorTracking.Reported.{alerts_of}
use nestjs_template.Client.{take_text}
use nestjs_template.Text.{text_length, to_lower, starts_with}
use nestjs_template.Hibp.Text.{trim}
use nestjs_template.Pipes.Text.{prettify_field_name, replace_all}
use nestjs_template.Pipes.{
  extract_validation_errors, entries_of, first_message, sort_by, insert_by, find_message, priority,
  Errors, invalid, nil, cons, or_unknown, exception_factory,
}
use nestjs_template.Pipes.Flattened.{nodes, report_all, catch-exception_factory}
use nestjs_template.Examples.{a_request}
use nestjs_template.Examples.Errors.{a_tracker_env, a_tracker}

-- The first attempt and the retries, one after the other.
tries : {A : Type 0} → ℕ → (ℕ → Attempt A) → Attempt A
tries zero request = request 0
tries (suc n) request =
    let later = tries n (λ m. request (suc m)) in
    elim (request 0) [ answered r ↦ answered r | failed e ↦ later ]

tries-answered :
    (n : ℕ) (request : ℕ → Attempt String) (r : AxiosResponse String)
    → request 0 ≡ answered r
    → tries (suc n) request ≡ answered r
unfolding tries
tries-answered n request r h =
    ap {B = Attempt String}
      (λ a. elim a [ answered r ↦ answered r | failed e ↦ tries n (λ m. request (suc m)) ]) h

tries-failed :
    (n : ℕ) (request : ℕ → Attempt String) (e : Thrown)
    → request 0 ≡ failed e
    → tries (suc n) request ≡ tries n (λ m. request (suc m))
unfolding tries
tries-failed n request e h =
    ap {B = Attempt String}
      (λ a. elim a [ answered r ↦ answered r | failed e ↦ tries n (λ m. request (suc m)) ]) h

tries-answer :
    (count n : ℕ) (request : ℕ → Attempt String) (r : AxiosResponse String)
    → n ≤ count
    → ((m : ℕ) → m < n → (e : Thrown) × (request m ≡ failed e))
    → request n ≡ answered r
    → tries count request ≡ answered r
unfolding tries
tries-answer zero zero request r l fails h = h
tries-answer zero (suc n) request r l fails h = absurd (omega (arith, l))
tries-answer (suc count) zero request r l fails h = tries-answered count request r h
tries-answer (suc count) (suc n) request r l fails h =
    let (e, first) = fails 0 (omega arith) in
    tries-failed count request e first
    ∙ tries-answer count n (λ m. request (suc m)) r (omega (arith, l))
        (λ m k. fails (suc m) (omega (arith, k))) h

tries-error :
    (count : ℕ) (request : ℕ → Attempt String) (e : Thrown)
    → ((m : ℕ) → m < count → (x : Thrown) × (request m ≡ failed x))
    → request count ≡ failed e
    → tries count request ≡ failed e
unfolding tries
tries-error zero request e fails h = h
tries-error (suc count) request e fails h =
    let (x, first) = fails 0 (omega arith) in
    tries-failed count request x first
    ∙ tries-error count (λ m. request (suc m)) e (λ m k. fails (suc m) (omega (arith, k))) h

abbrev a_retrying : Retrying String
a_retrying = record {
  retry = λ count delay request. tries count request;
  passes_answer = λ count delay n request r l fails h. tries-answer count n request r l fails h;
  passes_error = λ count delay request e fails h. tries-error count request e fails h;
}

-- One retry, and a service that answers the second time.
abbrev one_retry : HttpClient
one_retry = configure (object (field "retry" (object (field "count" (number 1) end)) end))

abbrev films_page : AxiosResponse String
films_page = record { body = "films"; status = 200; status_text = ""; headers = [] }

abbrev second_time : ℕ → Attempt String
second_time zero = failed (plain "reset")
second_time (suc n) = answered films_page

handle_request_runs : handle_request a_retrying one_retry second_time ≡ respond films_page
unfolding handle_request tries configure
handle_request_runs = refl

-- The name of a status, looked up in HTTP_STATUS.
abbrev name_in : ℕ → List (String × ℕ) → Option String
name_in code [] = none
name_in code ((n, c) ∷ rest) = if c == code then some n else name_in code rest

abbrev a_filter_env : FilterEnv
a_filter_env = record { nest_status = λ code. name_in code http_status; tracking = a_tracker_env }

abbrev codes : List (String × ℕ) → List ℕ
codes entries = map (λ e. e.1) entries

code_in-member :
    (entries : List (String × ℕ)) (name : String) (code : ℕ)
    → code_in name entries ≡ some code
    → member (codes entries) code ≡ true
code_in-member [] name code h = absurd cc
code_in-member ((n, c) ∷ rest) name code h = elim (Bool-cases (n === name)) [
  | inl e ↦
      let same : c ≡ code = some-inverse (sym (if-true _ _ _ e) ∙ h) in
      rw same (rw (==_refl code) refl)
  | inr e ↦ rw (code_in-member rest name code (sym (if-false _ _ _ e) ∙ h)) (or_true (c == code))
]

name_in-code_in :
    (entries : List (String × ℕ)) (name : String) (code : ℕ)
    → all_different (codes entries) ≡ true
    → code_in name entries ≡ some code
    → name_in code entries ≡ some name
name_in-code_in [] name code distinct h = absurd cc
name_in-code_in ((n, c) ∷ rest) name code distinct h = elim (Bool-cases (n === name)) [
  | inl e ↦
      let same : c ≡ code = some-inverse (sym (if-true _ _ _ e) ∙ h) in
      rw (same, (eq_iff n name).0 e) (rw (==_refl code) refl)
  | inr e ↦
      let later : code_in name rest ≡ some code = sym (if-false _ _ _ e) ∙ h in
      let known = code_in-member rest name code later in
      elim (Bool-cases (c == code)) [
        | inl f ↦
            let same : c ≡ code = (==_iff c code).0 f in
            absurd (ground (arith, known, (rw same at distinct)))
        | inr f ↦ if-false _ _ _ f ∙ name_in-code_in rest name code (ground (arith, distinct)) later
      ]
]

a_filter_env-KnowsNames : KnowsNames a_filter_env
unfolding status_of
a_filter_env-KnowsNames = record {
  name_of = λ name code entry large. name_in-code_in http_status name code refl entry;
}

abbrev an_incoming : Incoming
an_incoming = record {
  method = "GET";
  path = "/films/7";
  request_id = "r1";
  now = 5;
  x_language = absent;
  accept_language = absent;
  content_language = absent;
  translate = λ key lang args. key;
}

abbrev no_film : ResponseParams String
no_film = record {
  module_ = some "films";
  key = some "not-found";
  message = none;
  args = [];
  rest = [];
}

abbrev a_fault : Fault
a_fault = record { name = "Error"; message = "boom"; stack = none }

abbrev a_get : AppRequest
a_get = record { method = "GET"; url = "/films"; client = a_request; request_id = "r1" }

abbrev a_watched : Watched
a_watched = record { lines = []; tracker = a_tracker }

catch-error_response_example :
    let x = error_response an_incoming not_found no_film in
    IsRelayed true x a_fault (catch a_filter_env (exception_of x a_fault) a_get a_watched).0
catch-error_response_example =
    catch-error_response a_filter_env a_filter_env-KnowsNames an_incoming not_found no_film a_fault
      a_get a_watched

-- A crash that is seen twice, and an answer 404 in between.
abbrev three_exceptions : List (ℕ × Exception × AppRequest)
three_exceptions =
    (5, Exception.error a_fault, a_get)
    ∷ (6, exception_of (error_response an_incoming not_found no_film) a_fault, a_get)
    ∷ (9, Exception.error a_fault, a_get)
    ∷ []

catch_all-once_example :
    alerts_of a_tracker_env "Error:boom\n"
      (catch_all a_filter_env three_exceptions a_watched).tracker.alerts
    ≡ 1
unfolding build_fingerprint top_frame take_text is_storable text_length error_response
catch_all-once_example =
    catch_all-once a_filter_env
      (record {
        in_production = refl;
        address = "help@example.org";
        to_address = refl;
        taken = λ e now. refl;
      })
      "Error:boom\n" three_exceptions a_watched refl refl

-- Two constraints of a nested property: the one that comes first by its number is shown.
abbrev bad_film : Errors
bad_film =
    cons
      (invalid "film" none (
        cons
          (invalid "releaseYear"
            (some (
              record { name = "max"; message = some "releaseYear is too large" }
              ∷ record { name = "isInt"; message = some "releaseYear must be an integer" }
              ∷ []))
            nil)
          nil))
      nil

catch-exception_factory_example :
    let answer = catch a_filter_env (exception_factory bad_film a_fault) a_get a_watched in
    (answer.0.line ≡ 400)
    × (answer.0.body.errors ≡ some (or_unknown (report_all (nodes "" bad_film))))
    × (answer.1 ≡ a_watched)
catch-exception_factory_example =
    catch-exception_factory a_filter_env bad_film a_fault a_get a_watched

bad_film-runs :
    extract_validation_errors "" bad_film
    ≡ record { field = "film.releaseYear"; message = "Film release year must be an integer" } ∷ []
unfolding extract_validation_errors entries_of first_message sort_by insert_by find_message
    prettify_field_name replace_all to_lower trim starts_with text_length priority
bad_film-runs = refl
