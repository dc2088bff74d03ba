-- ===== src/Response.antt =====
-- src/shared/response: the envelope of an answer. `D` is the value of a field of the payload. Time and
-- the identifier of the request are given with the request; the translations are a parameter.
pub mod Errors
use Prim.Native.Char.{code}
use Prim.Native.String
use nestjs_template.Common.{
  ℕ, String, Bool, true, false, Option, none, some, List, [], ◌∷◌, ◌===◌, ◌==◌, truthy, or_else,
  truthy_option, truthy_number, ◌&&◌, if◌then◌else◌,
}
use nestjs_template.Hibp.Text.{trim}

-- src/shared/response/types/response-params.type.ts; `rest` are the additional fields.
pub record ResponseParams (D : Type 0) : Type 0 where
  pub module_ : Option String
  pub key : Option String
  pub message : Option String
  pub args : List (String × String)
  pub rest : List (String × D)

-- src/shared/response/interfaces/app-response.interface.ts
pub record AppResponse (D : Type 0) : Type 0 where
  pub method : String
  pub path : String
  pub correlation_id : String
  pub timestamp : ℕ
  pub success : Bool
  pub status_code : ℕ
  pub status : String
  pub message : String
  pub payload : Option (List (String × D))

-- A header: `undefined`, a text, or a list of texts.
pub data Header : Type 0 where
  absent : Header
  one : String → Header
  several : List String → Header

-- What the service reads of the request and of its surroundings.
pub record Incoming : Type 0 where
  pub method : String
  pub path : String
  pub request_id : String
  pub now : ℕ
  pub x_language : Header
  pub accept_language : Header
  pub content_language : Header
  -- `i18n.translate(key, { lang, args })`
  pub translate : String → String → List (String × String) → String

-- HTTP_STATUS: the `context` of an entry is its name.
abbrev pub http_status : List (String × ℕ)
http_status =
    ("CONTINUE", 100)
    ∷ ("SWITCHING_PROTOCOLS", 101)
    ∷ ("PROCESSING", 102)
    ∷ ("EARLY_HINTS", 103)
    ∷ ("OK", 200)
    ∷ ("CREATED", 201)
    ∷ ("ACCEPTED", 202)
    ∷ ("NON_AUTHORITATIVE_INFORMATION", 203)
    ∷ ("NO_CONTENT", 204)
    ∷ ("RESET_CONTENT", 205)
    ∷ ("PARTIAL_CONTENT", 206)
    ∷ ("MULTI_STATUS", 207)
    ∷ ("ALREADY_REPORTED", 208)
    ∷ ("CONTENT_DIFFERENT", 210)
    ∷ ("AMBIGUOUS", 300)
    ∷ ("MOVED_PERMANENTLY", 301)
    ∷ ("FOUND", 302)
    ∷ ("SEE_OTHER", 303)
    ∷ ("NOT_MODIFIED", 304)
    ∷ ("TEMPORARY_REDIRECT", 307)
    ∷ ("PERMANENT_REDIRECT", 308)
    ∷ ("BAD_REQUEST", 400)
    ∷ ("UNAUTHORIZED", 401)
    ∷ ("PAYMENT_REQUIRED", 402)
    ∷ ("FORBIDDEN", 403)
    ∷ ("NOT_FOUND", 404)
    ∷ ("METHOD_NOT_ALLOWED", 405)
    ∷ ("NOT_ACCEPTABLE", 406)
    ∷ ("PROXY_AUTHENTICATION_REQUIRED", 407)
    ∷ ("REQUEST_TIMEOUT", 408)
    ∷ ("CONFLICT", 409)
    ∷ ("GONE", 410)
    ∷ ("LENGTH_REQUIRED", 411)
    ∷ ("PRECONDITION_FAILED", 412)
    ∷ ("PAYLOAD_TOO_LARGE", 413)
    ∷ ("URI_TOO_LONG", 414)
    ∷ ("UNSUPPORTED_MEDIA_TYPE", 415)
    ∷ ("REQUESTED_RANGE_NOT_SATISFIABLE", 416)
    ∷ ("EXPECTATION_FAILED", 417)
    ∷ ("I_AM_A_TEAPOT", 418)
    ∷ ("MISDIRECTED", 421)
    ∷ ("UNPROCESSABLE_ENTITY", 422)
    ∷ ("LOCKED", 423)
    ∷ ("FAILED_DEPENDENCY", 424)
    ∷ ("PRECONDITION_REQUIRED", 428)
    ∷ ("TOO_MANY_REQUESTS", 429)
    ∷ ("UNRECOVERABLE_ERROR", 456)
    ∷ ("INTERNAL_SERVER_ERROR", 500)
    ∷ ("NOT_IMPLEMENTED", 501)
    ∷ ("BAD_GATEWAY", 502)
    ∷ ("SERVICE_UNAVAILABLE", 503)
    ∷ ("GATEWAY_TIMEOUT", 504)
    ∷ ("HTTP_VERSION_NOT_SUPPORTED", 505)
    ∷ ("INSUFFICIENT_STORAGE", 507)
    ∷ ("LOOP_DETECTED", 508)
    ∷ []

abbrev pub code_in : String → List (String × ℕ) → Option ℕ
code_in name [] = none
code_in name ((n, c) ∷ rest) = if n === name then some c else code_in name rest

-- `HTTP_STATUS[name]?.status`
unfoldable pub status_of : String → Option ℕ
status_of name = code_in name http_status

-- `value.split(',')[0]`
abbrev before_comma : String → String
before_comma String.[] = ""
before_comma (String.◌∷◌ c s) =
    let rest = before_comma s in if code c == 44 then "" else String.◌∷◌ c rest

-- What one header tells of the language, the preparation of its text first.
abbrev language_of : (String → String) → Header → Option String
language_of f absent = none
language_of f (several []) = none
language_of f (several (lang ∷ _)) = some lang
language_of f (one value) = if truthy (trim value) then some (f value) else none

-- `getLangFromRequest`
unfoldable pub get_lang_from_request : Incoming → String
get_lang_from_request r = or_else (language_of trim r.x_language) (
    or_else (language_of (λ v. trim (before_comma v)) r.accept_language)
      (or_else (language_of trim r.content_language) "en"))

abbrev pub fields_or_none : {D : Type 0} → List (String × D) → Option (List (String × D))
fields_or_none [] = none
fields_or_none (f ∷ fs) = some (f ∷ fs)

-- `${value}` of an optional text
abbrev shown : Option String → String
shown none = "undefined"
shown (some s) = s

abbrev pub message_key : {D : Type 0} → String → ResponseParams D → String
message_key kind p = String.◌++◌ (shown p.module_) (String.◌++◌ kind (shown p.key))

module _ {D : Type 0} (r : Incoming) where
  -- `buildResponse`: a status of the type of its argument is an entry of the map.
  unfoldable pub build_response : Bool → String → String → List (String × D) → AppResponse D
  build_response success status message rest = record {
    method = r.method;
    path = r.path;
    correlation_id = r.request_id;
    timestamp = r.now;
    success = success;
    status_code = or_else (status_of status) (if success then 200 else 500);
    status = elim (status_of status) [
      | none ↦ if success then "HTTP_SUCCESS" else "HTTP_ERROR"
      | some _ ↦ status
    ];
    message = message;
    payload = fields_or_none rest;
  }

  -- `success`: the message that is given comes first.
  unfoldable pub success : String → ResponseParams D → AppResponse D
  success status p =
      build_response true status
        (if truthy_option p.message
          then or_else p.message ""
          else r.translate (message_key ".success." p) (get_lang_from_request r) p.args)
        p.rest

  -- `error`: the translation comes first.
  unfoldable pub error : String → ResponseParams D → AppResponse D
  error status p =
      build_response false status
        (if truthy_option p.module_ && truthy_option p.key
          then r.translate (message_key ".error." p) (get_lang_from_request r) p.args
          else or_else p.message "Error")
        p.rest
