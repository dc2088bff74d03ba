-- ===== src/Examples/Logs.antt =====
-- The theorems on the log of a request, applied.
use nestjs_template.Common.{
  ℕ, String, Result, ok, Action, ◌≡◌, refl, true, false, none, some, List, [], ◌∷◌, arith,
}
use nestjs_template.ActivityLog.{
  UserLogParams, RequestContext, HttpRequest, Ending, LogTables, handle_direct, handle_rabbitmq,
}
use nestjs_template.ActivityLog.Modes.{handle_direct-rabbitmq}
use nestjs_template.ActivityLog.Snapshot.{
  Value, opaque, text, number, array, instance_, field, end, snapshot, convert, is_sensitive_field,
  j_object, j_entry, j_text, j_number, j_end, j_array,
}
use nestjs_template.ActivityLog.Snapshot.Redacted.{blank}
use nestjs_template.ActivityLog.SystemLog.{Method, LogEnv, SystemEntry, SystemLogs, system_log}
use nestjs_template.ActivityLog.SystemLog.Shown.{
  text_items, json_texts, IsWritten, system_log-shown,
}
use nestjs_template.Hibp.{check_password}
use nestjs_template.Examples.{an_env, a_world}
use nestjs_template.ActivityLog.SystemLog.Hidden.{system_log-blank}

abbrev a_context : RequestContext
a_context = record {
  request_id = "r1";
  ip = some "10.0.0.1";
  user_agent = none;
  user_id = some 7;
  endpoint = none;
  request_log_id = none;
  pending_user_logs = [];
}

abbrev a_call : HttpRequest
a_call = record {
  method = "POST";
  path = "/films";
  body = some "{}";
  query_params = none;
  path_params = none;
}

abbrev two_actions : List UserLogParams
two_actions =
    record {
      action = "film-created";
      user_id = some 7;
      status = none;
      request_log_id = none;
      metadata = none;
    }
    ∷ record {
      action = "film-shared";
      user_id = some 7;
      status = none;
      request_log_id = none;
      metadata = some "{}";
    }
    ∷ []

abbrev empty_tables : LogTables
empty_tables = record {
  next_request_id = 1;
  next_user_id = 1;
  request_logs = [];
  user_logs = [];
  refuses = false;
}

handle_direct-rabbitmq_example :
    handle_direct a_context a_call two_actions Ending.crashed 12 empty_tables
    ≡ handle_rabbitmq a_context a_call two_actions Ending.crashed 12 empty_tables
handle_direct-rabbitmq_example =
    handle_direct-rabbitmq a_context a_call Ending.crashed 12 two_actions empty_tables refl refl
      refl refl

abbrev refusing : LogTables
refusing = record empty_tables { refuses = true }

-- A method that takes a body with a token.
abbrev a_method : Method
a_method = record { label = some "auth"; host_module = none; class_name = "A"; fn = "execute" }

abbrev token_body : Value
token_body =
    instance_ 0 ("secret" ∷ [])
      (field "token" (text "t1") (field "secret" (text "s1") (field "id" (number 7) end)))

abbrev a_log_env : LogEnv
a_log_env = record {
  enable_rabbitmq = false;
  in_request = true;
  has_service = true;
  user_id = some 7;
  request_log_id = none;
}

abbrev answering : Action ℕ String
answering n = (ok "t2", n)

abbrev no_logs : SystemLogs
no_logs = record { rows = []; pending = [] }

abbrev logged_with : Value → Result String × (ℕ × SystemLogs)
logged_with input =
    system_log a_log_env a_method 5 2 input text (λ e. "failed") answering (3, no_logs)

system_log-blank_example :
    ((logged_with token_body).0 ≡ ok "t2")
    × ((logged_with token_body).1.0 ≡ 3)
    × (logged_with token_body ≡ logged_with (blank token_body))
unfolding blank
system_log-blank_example =
    system_log-blank a_method 5 2 token_body text (λ e. "failed") a_log_env answering 3 no_logs

token_body-runs :
    snapshot token_body
    ≡ some (
        j_object (
          j_entry "token"
            (j_text "[REDACTED]")
            (j_entry "secret" (j_text "[REDACTED]") (j_entry "id" (j_number 7) j_end))))
unfolding snapshot convert is_sensitive_field
token_body-runs = refl

-- The check of a password, as it is decorated.
abbrev check_method : Method
check_method = record {
  label = some "shared";
  host_module = none;
  class_name = "HibpService";
  fn = "checkPassword";
}

system_log-shown_example :
    let logged =
      system_log a_log_env check_method 5 2
        (array 0 (text_items ("hunter2" ∷ [])))
        (λ _. opaque)
        (λ e. "failed")
        (check_password an_env "hunter2")
        (a_world, no_logs) in
    (e : SystemEntry) × (e.input ≡ some (j_array (json_texts ("hunter2" ∷ []))))
    × (e.fn ≡ "checkPassword")
    × IsWritten a_log_env no_logs e logged.1.1
system_log-shown_example =
    system_log-shown a_log_env check_method 5 2 0 (λ _. opaque) (λ e. "failed")
      (check_password an_env "hunter2") a_world no_logs ("hunter2" ∷ []) (omega arith) refl

-- The body of a change of the password.
change_password-runs :
    snapshot
      (instance_ 0 [] (field "oldPassword" (text "old") (field "newPassword" (text "new") end)))
    ≡ some (
        j_object
          (j_entry "oldPassword" (j_text "old") (j_entry "newPassword" (j_text "new") j_end)))
unfolding snapshot convert is_sensitive_field
change_password-runs = refl
