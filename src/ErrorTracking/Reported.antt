-- ===== src/ErrorTracking/Reported.antt =====
-- How often an error is reported.
use nestjs_template.Common.{
  ℕ, ◌+◌, String, ◌≡◌, ◌∙◌, refl, Bool, true, false, not, ◌&&◌, some, List, [], ◌∷◌, ◌==◌, ◌===◌,
  ===_refl, eq_iff, Bool-cases, inl, inr, arith, ok, if◌then◌else◌,
}
use nestjs_template.ErrorTracking.{
  Occurrence, TrackerEnv, Tracker, build_fingerprint, is_storable, send_admin_alert, execute,
  execute_all,
}
use nestjs_template.ErrorTracking.Rows.{count_of, one_if, upserted-found}
use nestjs_template.ErrorTracking.Counted.{
  tally, counted, execute-storable, execute-refused, report-sent, count-execute, count-execute_all,
}

-- The alerts that were sent for an error.
abbrev pub alerts_of : TrackerEnv → String → List Occurrence → ℕ
alerts_of env f [] = 0
alerts_of env f (e ∷ alerts) = one_if (build_fingerprint env e === f) + alerts_of env f alerts

-- In production, with an address, and with a mail service that takes every alert.
pub record IsReporting (env : TrackerEnv) : Type 0 where
  pub in_production : env.is_prod ≡ true
  pub address : String
  pub to_address : env.support_email ≡ some address
  pub taken : (e : Occurrence) (now : ℕ) → env.delivers e now ≡ true

first_count : (k : ℕ) (b : Bool) → (k + 1 == 1 && b) ≡ true → (k == 0) ≡ true
first_count k b h = ground arith

later_count : (k : ℕ) (b : Bool) → b ≡ true → (k + 1 == 1 && b) ≡ false → (k == 0) ≡ false
later_count k b prod h = ground arith

module _ (env : TrackerEnv) (reporting : IsReporting env) where
  send_eq :
      (e : Occurrence) (s : Tracker)
      → send_admin_alert env e s ≡ (ok tt, record s { alerts = e ∷ s.alerts })
  unfolding send_admin_alert
  send_eq e s = rw (reporting.to_address, reporting.taken e s.now) refl

  -- The first occurrence of an error is reported, a later one is not.
  alerts-execute :
      (e : Occurrence) (s : Tracker)
      → is_storable e ≡ true
      → (execute env e s).alerts
        ≡ (if count_of (build_fingerprint env e) s.errors == 0 then e ∷ s.alerts else s.alerts)
  alerts-execute e s fits =
      let fp = build_fingerprint env e in
      let n = count_of fp s.errors + 1 in
      let (row, found, seen) = upserted-found fp e s.now s.next_id s.errors in
      elim (Bool-cases (n == 1 && env.is_prod)) [
        | inl first ↦
            rw
              (
                execute-storable env e s fits,
                report-sent env e s.now n row (counted env e s) _ first
                    (send_eq e (counted env e s)) found,
              )
              (rw (first_count (count_of fp s.errors) env.is_prod first) refl)
        | inr later ↦
            rw (execute-storable env e s fits, later)
              (rw (later_count (count_of fp s.errors) env.is_prod reporting.in_production later)
                refl)
      ]

  -- Each error that was seen is reported once.
  Once : Tracker → String → Type 0
  Once s f = alerts_of env f s.alerts ≡ one_if (not (count_of f s.errors == 0))

  reported :
      (f : String) (e : Occurrence) (s : Tracker)
      → Once s f
      → alerts_of env f
          (if count_of (build_fingerprint env e) s.errors == 0 then e ∷ s.alerts else s.alerts)
        ≡ one_if (not (one_if (build_fingerprint env e === f) + count_of f s.errors == 0))
  unfolding Once
  reported f e s h = elim (Bool-cases (build_fingerprint env e === f)) [
    | inl same ↦ rw ((eq_iff (build_fingerprint env e) f).0 same, ===_refl f) ground (arith, h)
    | inr other ↦ ground (arith, h, other)
  ]

  execute-Once : (f : String) (e : Occurrence) (s : Tracker) → Once s f → Once (execute env e s) f
  unfolding Once
  execute-Once f e s h = elim (Bool-cases (is_storable e)) [
    | inr big ↦ rw (execute-refused env e s big) h
    | inl fits ↦ rw (alerts-execute e s fits, count-execute env f e s, fits) (reported f e s h)
  ]

  execute_all-Once :
      (f : String) (occurrences : List (ℕ × Occurrence)) (s : Tracker)
      → Once s f
      → Once (execute_all env occurrences s) f
  unfolding Once execute_all
  execute_all-Once f [] s h = h
  execute_all-Once f ((now, e) ∷ rest) s h =
      execute_all-Once f rest (execute env e (record s { now = now }))
        (execute-Once f e (record s { now = now }) h)

  -- From an empty table, in production and with a mail service that takes the alerts: of each error
  -- exactly one alert is sent if it occurred at all, however often it occurs, and none if not. An
  -- occurrence whose name or method is too long for its column does not count.
  pub execute_all-once :
      (f : String) (occurrences : List (ℕ × Occurrence)) (s : Tracker)
      → s.errors ≡ []
      → s.alerts ≡ []
      → alerts_of env f (execute_all env occurrences s).alerts
        ≡ one_if (not (tally env f occurrences == 0))
  unfolding Once
  execute_all-once f occurrences s no_errors no_alerts =
      let started : Once s f = rw (no_errors, no_alerts) refl in
      let none_yet : count_of f s.errors ≡ 0 = rw no_errors refl in
      let all : tally env f occurrences + 0 ≡ tally env f occurrences = omega arith in
      execute_all-Once f occurrences s started
      ∙ rw (count-execute_all env f occurrences s, none_yet, all) refl
