-- ===== src/ActivityLog/SystemLog.antt =====
-- src/modules/activity-log/decorators/system-log.decorator.ts, and log-system-activity.provider.ts: a
-- method that is logged. A promise, an observable and a plain return are one case here, since a call
-- runs at one instant; `elapsed` is the time that the method takes.
pub mod Hidden
pub mod Shown
use nestjs_template.Common.{
  ℕ, String, ◌≡◌, refl, Bool, true, false, ◌&&◌, Option, none, some, or_else, List, [], ◌∷◌, ◌++◌,
  Result, ok, err, Failure, Action, if◌then◌else◌,
}
use nestjs_template.ActivityLog.{LogStatus, success, failed, either}
use nestjs_template.ActivityLog.Snapshot.{Value, Json, snapshot}

-- src/modules/activity-log/interfaces/log-system-activity.interface.ts
pub record SystemEntry : Type 0 where
  pub module_ : String
  pub class_name : String
  pub fn : String
  pub status : LogStatus
  pub duration_ms : ℕ
  pub executed_at : ℕ
  pub user_id : Option ℕ
  pub request_log_id : Option ℕ
  pub input : Option Json
  pub output : Option Json
  pub error : Option String

-- The rows that are written, and the entries that wait for the end of the request.
pub record SystemLogs : Type 0 where
  pub rows : List SystemEntry
  pub pending : List SystemEntry

-- The configuration, whether there is a context of a request and a service, and what the context holds.
pub record LogEnv : Type 0 where
  pub enable_rabbitmq : Bool
  pub in_request : Bool
  pub has_service : Bool
  pub user_id : Option ℕ
  pub request_log_id : Option ℕ

-- `LogSystemActivityProvider.log`, with `pushSystemLog`
unfoldable pub log_system : LogEnv → SystemEntry → SystemLogs → SystemLogs
log_system env e s =
    if env.enable_rabbitmq && env.in_request
    then record s { pending = s.pending ++ e ∷ [] }
    else record s { rows = s.rows ++ e ∷ [] }

-- `persist`: what the entry leaves open is taken from the context.
unfoldable pub persist : LogEnv → SystemEntry → SystemLogs → SystemLogs
unfolding log_system
persist env e s =
    if env.has_service
    then log_system env
        (record e {
          user_id = either e.user_id env.user_id;
          request_log_id = either e.request_log_id env.request_log_id;
        })
        s
    else s

-- A decorated method: the argument of `@SystemLog`, the `module` of its host, the name of the class and
-- of the method.
pub record Method : Type 0 where
  pub label : Option String
  pub host_module : Option String
  pub class_name : String
  pub fn : String

-- The entry of a call that returned or threw; `err instanceof Error ? err.message : String(err)` is the
-- text of a failure.
abbrev pub entry_of :
    {A : Type 0}
    → Method
    → ℕ
    → ℕ
    → Value
    → (A → Value)
    → (Failure → String)
    → Result A
    → SystemEntry
entry_of m start elapsed input output text_of (ok a) = record {
  module_ = or_else m.label (or_else m.host_module m.class_name);
  class_name = m.class_name;
  fn = m.fn;
  status = success;
  duration_ms = elapsed;
  executed_at = start;
  user_id = none;
  request_log_id = none;
  input = snapshot input;
  output = snapshot (output a);
  error = none;
}
entry_of m start elapsed input output text_of (err e) = record {
  module_ = or_else m.label (or_else m.host_module m.class_name);
  class_name = m.class_name;
  fn = m.fn;
  status = failed;
  duration_ms = elapsed;
  executed_at = start;
  user_id = none;
  request_log_id = none;
  input = snapshot input;
  output = none;
  error = some (text_of e);
}

-- `SystemLog`, on a method and its arguments
unfoldable pub system_log :
    {S A : Type 0}
    → LogEnv
    → Method
    → ℕ
    → ℕ
    → Value
    → (A → Value)
    → (Failure → String)
    → Action S A
    → Action (S × SystemLogs) A
unfolding persist
system_log env m start elapsed input output text_of original (s, logs) =
    let (result, after) = original s in
    (result, (after, persist env (entry_of m start elapsed input output text_of result) logs))
