-- ===== src/ActivityLog/SystemLog/Hidden.antt =====
-- What the log of a method does not show, and does not change.
use nestjs_template.Common.{ℕ, String, ◌≡◌, refl, sym, ap, Result, ok, err, Failure, Action}
use nestjs_template.ActivityLog.Snapshot.{Value}
use nestjs_template.ActivityLog.Snapshot.Redacted.{blank, snapshot-blank}
use nestjs_template.ActivityLog.SystemLog.{
  Method, LogEnv, SystemLogs, entry_of, persist, system_log,
}

module _ {A : Type 0} (m : Method) (start elapsed : ℕ) (input : Value) (output : A → Value)
    (text_of : Failure → String) where
  entry_of-blank :
      (result : Result A)
      → entry_of m start elapsed (blank input) (λ a. blank (output a)) text_of result
        ≡ entry_of m start elapsed input output text_of result
  entry_of-blank (ok a) = rw (snapshot-blank input, snapshot-blank (output a)) refl
  entry_of-blank (err e) = rw (snapshot-blank input) refl

  module _ {S : Type 0} (env : LogEnv) (original : Action S A) (s : S) (logs : SystemLogs) where
    -- A logged method answers and changes its state as it does without the log, and what stands at a
    -- secret name of its arguments or its answer, at whatever depth, has no influence on the log:
    -- `password`, `passwordHash`, `token`, `accessToken`, `refreshToken` and what the class marks.
    pub system_log-blank :
        let logged = system_log env m start elapsed input output text_of original (s, logs) in
        (logged.0 ≡ (original s).0)
        × (logged.1.0 ≡ (original s).1)
        × (logged
            ≡ system_log env m start elapsed
                (blank input)
                (λ a. blank (output a))
                text_of
                original
                (s, logs))
    unfolding system_log
    system_log-blank = (
      refl,
      refl,
      ap (λ e. ((original s).0, ((original s).1, persist env e logs)))
          (sym (entry_of-blank (original s).0)),
    )
