-- ===== src/ActivityLog.antt =====
-- src/modules/activity-log: the log of a request and of the user actions in it, written directly
-- (interceptors/request-log.interceptor.ts, providers/log-user-activity.provider.ts) or as a bundle
-- through the queue (consumers/log-bundle.consumer.ts). The system log and the redaction are in
-- Snapshot and SystemLog; here a body is the text of what `snapshot` made of it.
pub mod Modes
pub mod Snapshot
pub mod SystemLog
use nestjs_template.Common.{
  ℕ, suc, String, Bool, Option, none, some, or_else, List, [], ◌∷◌, ◌++◌, map, update_where, ◌==◌,
  if◌then◌else◌,
}
use Prim.Native.String

pub data LogStatus : Type 0 where
  success failed pending : LogStatus

pub record UserLogParams : Type 0 where
  pub action : String
  pub user_id : Option ℕ
  pub status : Option LogStatus
  pub request_log_id : Option ℕ
  pub metadata : Option String

pub record UserLog : Type 0 where
  pub id : ℕ
  pub action : String
  pub user_id : Option ℕ
  pub status : LogStatus
  pub request_log_id : Option ℕ
  pub metadata : Option String

pub record RequestContext : Type 0 where
  pub request_id : String
  pub ip : Option String
  pub user_agent : Option String
  pub user_id : Option ℕ
  pub endpoint : Option String
  pub request_log_id : Option ℕ
  pub pending_user_logs : List UserLogParams

pub record HttpRequest : Type 0 where
  pub method : String
  pub path : String
  pub body : Option String
  pub query_params : Option String
  pub path_params : Option String

pub record RequestLog : Type 0 where
  pub id : ℕ
  pub request_id : String
  pub method : String
  pub endpoint : String
  pub ip : Option String
  pub user_agent : Option String
  pub user_id : Option ℕ
  pub body : Option String
  pub query_params : Option String
  pub path_params : Option String
  pub status_code : Option ℕ
  pub duration_ms : Option ℕ

-- How the handler ended: with the status of its response, an `HttpException`, or another error.
pub data Ending : Type 0 where
  responded : ℕ → Ending
  http_failed : ℕ → Ending
  crashed : Ending

abbrev pub status_code_of : Ending → ℕ
status_code_of (responded code) = code
status_code_of (http_failed code) = code
status_code_of crashed = 500

-- `refuses` tells that the database refuses the rows of requests.
pub record LogTables : Type 0 where
  pub next_request_id : ℕ
  pub next_user_id : ℕ
  pub request_logs : List RequestLog
  pub user_logs : List UserLog
  pub refuses : Bool

-- `a ?? b` of two optional values
abbrev pub either : Option ℕ → Option ℕ → Option ℕ
either none b = b
either (some a) b = some a

-- The row of a request.
abbrev pub request_row : RequestContext → HttpRequest → Option ℕ → Option ℕ → ℕ → RequestLog
request_row ctx req status_code duration_ms id = record {
  id = id;
  request_id = ctx.request_id;
  method = req.method;
  endpoint = or_else ctx.endpoint (String.◌++◌ req.method (String.◌++◌ " " req.path));
  ip = ctx.ip;
  user_agent = ctx.user_agent;
  user_id = ctx.user_id;
  body = req.body;
  query_params = req.query_params;
  path_params = req.path_params;
  status_code = status_code;
  duration_ms = duration_ms;
}

abbrev pub user_row : Option ℕ → UserLogParams → ℕ → UserLog
user_row request_log_id p id = record {
  id = id;
  action = p.action;
  user_id = p.user_id;
  status = or_else p.status success;
  request_log_id = request_log_id;
  metadata = p.metadata;
}

abbrev pub add_user_log : Option ℕ → UserLogParams → LogTables → LogTables
add_user_log request_log_id p s = record s {
  next_user_id = suc s.next_user_id;
  user_logs = s.user_logs ++ user_row request_log_id p s.next_user_id ∷ [];
}

abbrev pub add_request_log : (ℕ → RequestLog) → LogTables → LogTables
add_request_log make s = record s {
  next_request_id = suc s.next_request_id;
  request_logs = s.request_logs ++ make s.next_request_id ∷ [];
}

-- `LogUserActivityProvider.execute`: the id of the parameters goes before that of the context.
unfoldable pub log_user_activity : RequestContext → UserLogParams → LogTables → LogTables
log_user_activity ctx p s = add_user_log (either p.request_log_id ctx.request_log_id) p s

-- The user actions that a handler logs, one after the other.
unfoldable pub log_all : RequestContext → List UserLogParams → LogTables → LogTables
unfolding log_user_activity
log_all ctx [] s = s
log_all ctx (p ∷ ps) s = log_all ctx ps (log_user_activity ctx p s)

-- `RequestLogInterceptor.safeUpdate`
abbrev pub safe_update : ℕ → ℕ → ℕ → LogTables → LogTables
safe_update id status_code duration_ms s = record s {
  request_logs =
      update_where (λ l. l.id == id)
        (λ l. record l { status_code = some status_code; duration_ms = some duration_ms })
        s.request_logs;
}

-- `RequestLogInterceptor.handleDirect`, with what the handler logs and how it ends.
unfoldable pub handle_direct :
    RequestContext → HttpRequest → List UserLogParams → Ending → ℕ → LogTables → LogTables
handle_direct ctx req logs ending duration s =
    if s.refuses
    then log_all ctx logs s
    else safe_update s.next_request_id (status_code_of ending) duration (
        log_all (record ctx { request_log_id = some s.next_request_id }) logs
          (add_request_log (request_row ctx req none none) s))

-- What the consumer makes of the user logs of a bundle.
unfoldable pub consume_user_logs : ℕ → List UserLogParams → LogTables → LogTables
consume_user_logs request_log_id [] s = s
consume_user_logs request_log_id (p ∷ ps) s =
    consume_user_logs request_log_id ps (add_user_log (some request_log_id) p s)

-- `LogBundleConsumer.handle`: a failure is logged, and the message is acknowledged all the same.
unfoldable pub consume : (ℕ → RequestLog) → List UserLogParams → LogTables → LogTables
consume make user_logs s =
    if s.refuses then s else consume_user_logs s.next_request_id user_logs (add_request_log make s)

-- `RequestLogInterceptor.handleRabbitmq`: the logs are collected, and one bundle is published.
unfoldable pub handle_rabbitmq :
    RequestContext → HttpRequest → List UserLogParams → Ending → ℕ → LogTables → LogTables
handle_rabbitmq ctx req logs ending duration s =
    consume (request_row ctx req (some (status_code_of ending)) (some duration))
      (ctx.pending_user_logs ++ logs) s
