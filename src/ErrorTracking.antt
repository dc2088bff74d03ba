-- ===== src/ErrorTracking.antt =====
-- src/modules/error-tracking/providers: how the exception filter's unexpected errors are counted and
-- reported. The table is the state of the tracker; the hash and the mail service are parameters.
pub mod Rows
pub mod Counted
pub mod Reported
use Prim.Native.String
use nestjs_template.Common.{
  ℕ, suc, ◌+◌, String, Bool, true, false, not, ◌&&◌, ◌||◌, Option, none, some, or_else, merged,
  List, [], ◌∷◌, ◌++◌, find, update_first, is_some, leb, ◌==◌, ◌===◌, Action, ok, err, http,
  type_error, pure, throw, throw_if, when, gets, modify, ◌>>=◌, ◌>>◌, value_too_long,
  server_error_not_found, if◌then◌else◌,
}
use nestjs_template.Base.Repository.{Repository}
use nestjs_template.Base.Providers.{update_provider}
use nestjs_template.Client.{take_text}
use nestjs_template.Text.{text_length}
use nestjs_template.Hibp.Text.{split_lines, trim}

-- src/modules/error-tracking/enums/server-error-status.enum.ts
pub data Status : Type 0 where
  pending in_progress resolved wont_fix ignored duplicate : Status

-- src/modules/error-tracking/entities/server-error.entity.ts
pub record ServerError : Type 0 where
  pub id : ℕ
  pub fingerprint : String
  pub error_name : String
  pub message : String
  pub method : String
  pub path : String
  pub stack : Option String
  pub status : Status
  pub occurrence_count : ℕ
  pub first_seen_at : ℕ
  pub last_seen_at : ℕ
  pub email_sent_at : Option ℕ

-- What was thrown, and the request in which it was.
pub record Occurrence : Type 0 where
  pub error_name : String
  pub message : String
  pub stack : Option String
  pub method : String
  pub url : String

-- `delivers` tells whether the mail service takes the alert.
pub record TrackerEnv : Type 0 where
  pub sha256 : String → String
  pub is_prod : Bool
  pub support_email : Option String
  pub delivers : Occurrence → ℕ → Bool

-- `alerts` are the mails that were sent, the last one first.
pub record Tracker : Type 0 where
  pub now : ℕ
  pub next_id : ℕ
  pub errors : List ServerError
  pub alerts : List Occurrence
  pub status_logs : List Status

abbrev pub server_errors : Repository Tracker ServerError
server_errors = record {
  rows = λ s. s.errors;
  save = λ rows s. record s { errors = rows };
  take_id = λ s. (ok s.next_id, record s { next_id = suc s.next_id });
  clashes = λ a b. a.fingerprint === b.fingerprint;
  refers = λ _ _. true;
  restricted = λ _ _. false;
  cascade = λ _ s. s;
}

abbrev pub is_of : String → ServerError → Bool
is_of fingerprint row = row.fingerprint === fingerprint

-- `stack?.split('\n')[1]?.trim() ?? ''`
unfoldable pub top_frame : Option String → String
top_frame none = ""
top_frame (some stack) = second (split_lines stack)
  where
    second : List String → String
    second (first ∷ line ∷ rest) = trim line
    second _ = ""

-- `TrackErrorProvider.buildFingerprint`
unfoldable pub build_fingerprint : TrackerEnv → Occurrence → String
build_fingerprint env e = take_text 64 (
    env.sha256 (
      String.◌++◌ e.error_name
        (String.◌++◌ ":" (String.◌++◌ e.message (String.◌++◌ "\n" (top_frame e.stack))))))

-- `DO UPDATE SET`: the row counts once more.
abbrev pub seen_again : ℕ → Option String → ServerError → ServerError
seen_again now stack row = record row {
  occurrence_count = row.occurrence_count + 1;
  last_seen_at = now;
  stack = stack;
}

abbrev pub first_seen : String → Occurrence → ℕ → ℕ → ServerError
first_seen fingerprint e now id = record {
  id = id;
  fingerprint = fingerprint;
  error_name = e.error_name;
  message = e.message;
  method = e.method;
  path = e.url;
  stack = e.stack;
  status = Status.pending;
  occurrence_count = 1;
  first_seen_at = now;
  last_seen_at = now;
  email_sent_at = none;
}

-- The columns `error_name` and `method` hold 255 and 10 characters.
unfoldable pub is_storable : Occurrence → Bool
is_storable e = leb (text_length e.error_name) 255 && leb (text_length e.method) 10

-- `UpsertServerErrorProvider.execute`: the sequence is drawn for a conflicting row too.
unfoldable pub upsert_server_error : String → Occurrence → Action Tracker ℕ
upsert_server_error fingerprint e = do
  throw_if (not (is_storable e)) (http 422 value_too_long)
  id ← server_errors.take_id
  now ← gets (λ s. s.now)
  known ← gets (λ s. find (is_of fingerprint) s.errors)
  elim known [
    | none ↦ do
      modify (λ s. record s { errors = s.errors ++ first_seen fingerprint e now id ∷ [] })
      pure 1
    | some row ↦ do
      modify (λ s. record s {
        errors = update_first (is_of fingerprint) (seen_again now e.stack) s.errors;
      })
      pure (row.occurrence_count + 1)
  ]

-- The partial row of an update.
pub record UpdateServerError : Type 0 where
  pub status : Option Status
  pub email_sent_at : Option ℕ

abbrev pub change_error : UpdateServerError → ServerError → ServerError
change_error dto row = record row {
  status = or_else dto.status row.status;
  email_sent_at = merged dto.email_sent_at row.email_sent_at;
}

-- `UpdateErrorTrackingProvider.execute`: a change of the status is logged.
unfoldable pub update_server_error :
    (ServerError → Bool) → UpdateServerError → Action Tracker ServerError
update_server_error =
    update_provider server_errors server_error_not_found (λ row. false) (λ row dto. pure tt)
      change_error
      (λ row dto. elim dto.status [
        | none ↦ pure tt
        | some status ↦ modify (λ s. record s { status_logs = status ∷ s.status_logs })
      ])

-- `TrackErrorProvider.sendAdminAlert`: without a support address nothing is sent.
unfoldable pub send_admin_alert : TrackerEnv → Occurrence → Action Tracker (Unit {0})
send_admin_alert env e s = elim env.support_email [
  | none ↦ (ok tt, s)
  | some address ↦
      if env.delivers e s.now
      then (ok tt, record s { alerts = e ∷ s.alerts })
      else (err type_error, s)
]

-- `TrackErrorProvider.execute` inside its `try`
unfoldable pub track_error : TrackerEnv → Occurrence → Action Tracker (Unit {0})
track_error env e = do
  let fingerprint = build_fingerprint env e
  now ← gets (λ s. s.now)
  count ← upsert_server_error fingerprint e
  when (count == 1 && env.is_prod) (do
    send_admin_alert env e
    update_server_error (is_of fingerprint) (record { status = none; email_sent_at = some now })
    pure tt)

-- The `catch` swallows what is thrown; what was written before stays.
unfoldable pub execute : TrackerEnv → Occurrence → Tracker → Tracker
execute env e s = (track_error env e s).1

-- The occurrences, each at its time.
unfoldable pub execute_all : TrackerEnv → List (ℕ × Occurrence) → Tracker → Tracker
execute_all env [] s = s
execute_all env ((now, e) ∷ rest) s = execute_all env rest (execute env e (record s { now = now }))
