-- ===== src/Filters.antt =====
-- src/common/filters/global-exception.filter.ts: what becomes of a thrown value. The logger and the
-- error tracking are the state.
pub mod Relayed
pub mod Alerted
use nestjs_template.Common.{
  ℕ, String, Bool, true, false, not, ◌||◌, Option, none, some, List, [], ◌∷◌, or_else, leb, ◌==◌,
  truthy, truthy_option, if◌then◌else◌,
}
use nestjs_template.State.{Request}
use nestjs_template.Client.{client_ip}
use nestjs_template.ErrorTracking.{Occurrence, TrackerEnv, Tracker, execute}

-- src/common/filters/interfaces/error-field.interface.ts
pub record FieldError : Type 0 where
  pub field : String
  pub message : String

-- `exception.getResponse()`: a text, an object with the fields that are looked for, or neither.
pub data Payload : Type 0 where
  text : String → Payload
  object : Option String → Option (List FieldError) → Payload
  nothing : Payload

-- An `Error`: the name of its class, its message and its stack.
pub record Fault : Type 0 where
  pub name : String
  pub message : String
  pub stack : Option String

-- An `HttpException` with its status and response, another `Error`, or `String(exception)` of a value
-- that is neither.
pub data Exception : Type 0 where
  http : ℕ → Payload → Fault → Exception
  error : Fault → Exception
  stray : String → Exception

-- src/common/filters/interfaces/request.interface.ts, with the identifier of the request
pub record AppRequest : Type 0 where
  pub method : String
  pub url : String
  pub client : Request
  pub request_id : String

-- src/common/filters/interfaces/error-response.interface.ts
pub record ErrorBody : Type 0 where
  pub success : Bool
  pub method : String
  pub status : String
  pub status_code : ℕ
  pub path : String
  pub correlation_id : String
  pub message : String
  pub timestamp : ℕ
  pub errors : Option (List FieldError)
  pub stack : Option String

-- What is sent: the status line and the body.
pub record Sent : Type 0 where
  pub line : ℕ
  pub body : ErrorBody

pub record LogLine : Type 0 where
  pub method : String
  pub url : String
  pub ip : String
  pub status_code : ℕ
  pub message : String
  pub stack : Option String

pub record Watched : Type 0 where
  pub lines : List LogLine
  pub tracker : Tracker

-- `HttpStatus[code]` of NestJS, and the environment of the tracker.
pub record FilterEnv : Type 0 where
  pub nest_status : ℕ → Option String
  pub tracking : TrackerEnv

-- LOGGABLE_CODES
abbrev pub is_loggable : ℕ → Bool
is_loggable code = code == 408

abbrev pub code_of : Exception → ℕ
code_of (http code _ _) = code
code_of _ = 500

abbrev message_in : Payload → String
message_in (text s) = if truthy s then s else "Internal server error"
message_in (object (some s) _) = if truthy s then s else "Internal server error"
message_in _ = "Internal server error"

abbrev pub message_of : Exception → String
message_of (http _ payload _) = message_in payload
message_of (error f) = if truthy f.message then f.message else "Internal server error"
message_of (stray _) = "Internal server error"

abbrev pub errors_of : Exception → Option (List FieldError)
errors_of (http _ (object _ errors) _) = errors
errors_of _ = none

abbrev pub stack_of : Exception → Option String
stack_of (http _ _ f) = f.stack
stack_of (error f) = f.stack
stack_of (stray _) = none

-- What `TrackErrorProvider.execute` reads of an exception and a request.
abbrev occurrence : Fault → AppRequest → Occurrence
occurrence f req = record {
  error_name = f.name;
  message = f.message;
  stack = f.stack;
  method = req.method;
  url = req.url;
}

abbrev pub occurrence_of : Exception → AppRequest → Occurrence
occurrence_of (http _ _ f) req = occurrence f req
occurrence_of (error f) req = occurrence f req
occurrence_of (stray shown) req =
    occurrence (record { name = "UnknownError"; message = shown; stack = none }) req

abbrev pub should_log : ℕ → Bool
should_log code = is_loggable code || leb 500 code

unfoldable pub body_of : FilterEnv → ℕ → Exception → AppRequest → ErrorBody
body_of env now e req = record {
  success = false;
  method = req.method;
  status = or_else (env.nest_status (code_of e)) "INTERNAL_SERVER_ERROR";
  status_code = code_of e;
  path = req.url;
  correlation_id = req.request_id;
  message = message_of e;
  timestamp = now;
  errors = errors_of e;
  stack =
      if not env.tracking.is_prod
      then (if truthy_option (stack_of e) then stack_of e else none)
      else none;
}

unfoldable pub watch : FilterEnv → Exception → AppRequest → Watched → Watched
watch env e req s =
    if should_log (code_of e)
    then record {
      lines =
          record {
            method = req.method;
            url = req.url;
            ip = client_ip req.client;
            status_code = code_of e;
            message = message_of e;
            stack = stack_of e;
          }
          ∷ s.lines;
      tracker =
          if leb 500 (code_of e)
          then execute env.tracking (occurrence_of e req) s.tracker
          else s.tracker;
    }
    else s

-- `catch`
unfoldable pub catch : FilterEnv → Exception → AppRequest → Watched → Sent × Watched
unfolding body_of watch
catch env e req s =
    (record { line = code_of e; body = body_of env s.tracker.now e req }, watch env e req s)

-- Several exceptions, each at its time.
unfoldable pub catch_all : FilterEnv → List (ℕ × Exception × AppRequest) → Watched → Watched
unfolding catch
catch_all env [] s = s
catch_all env ((now, e, req) ∷ rest) s =
    catch_all env rest (catch env e req (record s { tracker = record s.tracker { now = now } })).1
