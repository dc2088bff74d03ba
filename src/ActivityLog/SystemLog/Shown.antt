-- ===== src/ActivityLog/SystemLog/Shown.antt =====
-- What the log of a method shows of its arguments.
use nestjs_template.Common.{
  ℕ, String, ◌≡◌, ◌≤◌, refl, true, ◌&&◌, some, List, [], ◌∷◌, ◌++◌, length, Failure, Result, ok,
  err, Action, ◌∙◌, arith, if◌then◌else◌,
}
use nestjs_template.ActivityLog.Snapshot.{
  Value, Items, text, array, nil, cons, Jsons, j_text, j_array, j_nil, j_cons, convert_items,
  convert, snapshot, json_length,
}
use nestjs_template.ActivityLog.{either}
use nestjs_template.ActivityLog.SystemLog.{
  Method, LogEnv, SystemEntry, SystemLogs, entry_of, log_system, persist, system_log,
}

abbrev pub text_items : List String → Items
text_items [] = nil
text_items (s ∷ ss) = cons (text s) (text_items ss)

abbrev pub json_texts : List String → Jsons
json_texts [] = j_nil
json_texts (s ∷ ss) = j_cons (j_text s) (json_texts ss)

convert-text_items :
    (seen : List ℕ) (ss : List String) → convert_items seen (text_items ss) ≡ (json_texts ss, seen)
unfolding convert
convert-text_items seen [] = refl
convert-text_items seen (s ∷ ss) = rw (convert-text_items seen ss) refl

json_length-json_texts : (ss : List String) → json_length (json_texts ss) ≡ length ss
json_length-json_texts [] = refl
json_length-json_texts (s ∷ ss) = rw (json_length-json_texts ss) refl

snapshot-text_items :
    (id : ℕ) (ss : List String)
    → length ss ≤ 5
    → snapshot (array id (text_items ss)) ≡ some (j_array (json_texts ss))
unfolding snapshot convert
snapshot-text_items id [] h = refl
snapshot-text_items id (s ∷ ss) h =
    rw (convert-text_items (id ∷ []) ss) (ground (arith, json_length-json_texts ss))

-- The entry is written at once, or waits for the end of the request where the queue is on.
pub record IsWritten (env : LogEnv) (logs : SystemLogs) (e : SystemEntry) (logs' : SystemLogs)
    : Type 0 where
  pub rows :
      logs'.rows
      ≡ (if env.enable_rabbitmq && env.in_request then logs.rows else logs.rows ++ e ∷ [])
  pub pending :
      logs'.pending
      ≡ (if env.enable_rabbitmq && env.in_request then logs.pending ++ e ∷ [] else logs.pending)

-- The entry with what the context adds.
abbrev in_context : LogEnv → SystemEntry → SystemEntry
in_context env e = record e {
  user_id = either e.user_id env.user_id;
  request_log_id = either e.request_log_id env.request_log_id;
}

persist-IsWritten :
    (env : LogEnv) (e : SystemEntry) (logs : SystemLogs)
    → env.has_service ≡ true
    → IsWritten env logs (in_context env e) (persist env e logs)
unfolding persist log_system
persist-IsWritten env e logs h = record { rows = ground arith; pending = ground arith }

module _ {A : Type 0} (m : Method) (start elapsed : ℕ) (input : Value) (output : A → Value)
    (text_of : Failure → String) where
  entry-input :
      (out : Result A) → (entry_of m start elapsed input output text_of out).input ≡ snapshot input
  entry-input (ok a) = refl
  entry-input (err e) = refl

  entry-fn : (out : Result A) → (entry_of m start elapsed input output text_of out).fn ≡ m.fn
  entry-fn (ok a) = refl
  entry-fn (err e) = refl

module _ {S A : Type 0} (env : LogEnv) (m : Method) (start elapsed id : ℕ) (output : A → Value)
    (text_of : Failure → String) (original : Action S A) (s : S) (logs : SystemLogs) where
  -- A method that is called with at most five texts is logged, whether it returns or throws, with
  -- one entry more, and the input of this entry is the texts themselves, whatever they are: a
  -- password that is an argument is written to the log in the clear. There is a service for the log.
  pub system_log-shown :
      (ss : List String)
      → length ss ≤ 5
      → env.has_service ≡ true
      → let logged =
          system_log env m start elapsed
            (array id (text_items ss))
            output
            text_of
            original
            (s, logs) in
        (e : SystemEntry) × (e.input ≡ some (j_array (json_texts ss)))
        × (e.fn ≡ m.fn)
        × IsWritten env logs e logged.1.1
  unfolding system_log
  system_log-shown ss few service =
      let input = array id (text_items ss) in
      let e = entry_of m start elapsed input output text_of (original s).0 in
      (
        in_context env e,
        entry-input m start elapsed input output text_of (original s).0
            ∙ snapshot-text_items id ss few,
        entry-fn m start elapsed input output text_of (original s).0,
        persist-IsWritten env e logs service,
      )
