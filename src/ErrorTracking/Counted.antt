-- ===== src/ErrorTracking/Counted.antt =====
-- What the tracker counts and how often it reports.
use nestjs_template.Common.{
  ℕ, suc, ◌+◌, String, ◌≡◌, ◌∙◌, ap, refl, true, false, ◌&&◌, none, some, List, [], ◌∷◌, find,
  update_first, bind-ok, ◌==◌, ◌===◌, Bool-cases, Option-cases, inl, inr, arith, Action, ok, err,
  type_error, ◌⊎◌, pure, when, ◌>>◌,
}
use nestjs_template.Base.Providers.{update_provider}
use nestjs_template.ErrorTracking.{
  ServerError, Occurrence, TrackerEnv, Tracker, is_of, build_fingerprint, is_storable,
  upsert_server_error, UpdateServerError, change_error, update_server_error, send_admin_alert,
  track_error, execute, execute_all,
}
use nestjs_template.ErrorTracking.Rows.{
  count_of, one_if, upserted, upserted-found, count-upserted, count-marked,
}

-- The occurrences of an error that its row can hold, counted apart from the tracker.
abbrev pub tally : TrackerEnv → String → List (ℕ × Occurrence) → ℕ
tally env f [] = 0
tally env f ((now, e) ∷ rest) =
    one_if (is_storable e && build_fingerprint env e === f) + tally env f rest

module _ (env : TrackerEnv) where
  upsert_eq :
      (fp : String) (e : Occurrence) (s : Tracker)
      → is_storable e ≡ true
      → upsert_server_error fp e s ≡ (
        ok (count_of fp s.errors + 1),
        record s { next_id = suc s.next_id; errors = upserted fp e s.now s.next_id s.errors },
      )
  unfolding upsert_server_error
  upsert_eq fp e s fits = elim (Option-cases (find (is_of fp) s.errors)) [
    | inl h ↦ ground (arith, fits, h)
    | inr (row, h) ↦ ground (arith, fits, h)
  ]

  -- What follows the count.
  abbrev pub report : Occurrence → ℕ → ℕ → Action Tracker (Unit {0})
  report e now count = when (count == 1 && env.is_prod) (do
    send_admin_alert env e
    update_server_error (is_of (build_fingerprint env e))
        (record { status = none; email_sent_at = some now })
    pure tt)

  abbrev pub counted : Occurrence → Tracker → Tracker
  counted e s = record s {
    next_id = suc s.next_id;
    errors = upserted (build_fingerprint env e) e s.now s.next_id s.errors;
  }

  pub execute-storable :
      (e : Occurrence) (s : Tracker)
      → is_storable e ≡ true
      → execute env e s
        ≡ (report e s.now (count_of (build_fingerprint env e) s.errors + 1) (counted e s)).1
  unfolding execute track_error
  execute-storable e s fits =
      ap (λ x. x.1)
        (bind-ok (upsert_server_error (build_fingerprint env e) e) (report e s.now)
          (upsert_eq (build_fingerprint env e) e s fits))

  pub execute-refused : (e : Occurrence) (s : Tracker) → is_storable e ≡ false → execute env e s ≡ s
  unfolding execute track_error upsert_server_error
  execute-refused e s big = ground (arith, big)

  -- The row is marked as reported.
  abbrev mark : ℕ → UpdateServerError
  mark now = record { status = none; email_sent_at = some now }

  abbrev pub marked : Occurrence → ℕ → Tracker → Tracker
  marked e now s = record s {
    errors = update_first (is_of (build_fingerprint env e)) (change_error (mark now)) s.errors;
  }

  update_eq :
      (e : Occurrence) (now : ℕ) (row : ServerError) (s : Tracker)
      → find (is_of (build_fingerprint env e)) s.errors ≡ some row
      → update_server_error (is_of (build_fingerprint env e)) (mark now) s
        ≡ (ok (change_error (mark now) row), marked e now s)
  unfolding update_server_error update_provider
  update_eq e now row s h = ground (arith, h)

  pub report-sent :
      (e : Occurrence) (now n : ℕ) (row : ServerError) (s t : Tracker)
      → (n == 1 && env.is_prod) ≡ true
      → send_admin_alert env e s ≡ (ok tt, t)
      → find (is_of (build_fingerprint env e)) t.errors ≡ some row
      → report e now n s ≡ (ok tt, marked e now t)
  report-sent e now n row s t first sent h = ground (arith, first, sent, update_eq e now row t h)

  report-failed :
      (e : Occurrence) (now n : ℕ) (s : Tracker)
      → (n == 1 && env.is_prod) ≡ true
      → send_admin_alert env e s ≡ (err type_error, s)
      → report e now n s ≡ (err type_error, s)
  report-failed e now n s first failed = ground (arith, first, failed)

  send_admin_alert-cases :
      (e : Occurrence) (s : Tracker)
      → (send_admin_alert env e s ≡ (ok tt, s))
        ⊎ (send_admin_alert env e s ≡ (ok tt, record s { alerts = e ∷ s.alerts }))
        ⊎ (send_admin_alert env e s ≡ (err type_error, s))
  unfolding send_admin_alert
  send_admin_alert-cases e s = elim (Option-cases env.support_email) [
    | inl nobody ↦ inl (rw nobody refl)
    | inr (address, known) ↦ elim (Bool-cases (env.delivers e s.now)) [
      | inl sent ↦ inr (inl (rw (known, sent) refl))
      | inr failed ↦ inr (inr (rw (known, failed) refl))
    ]
  ]

  -- A report keeps every count.
  count-report :
      (f : String) (e : Occurrence) (now n : ℕ) (row : ServerError) (s : Tracker)
      → find (is_of (build_fingerprint env e)) s.errors ≡ some row
      → count_of f (report e now n s).1.errors ≡ count_of f s.errors
  count-report f e now n row s h = elim (Bool-cases (n == 1 && env.is_prod)) [
    | inr silent ↦ rw silent refl
    | inl first ↦ elim (send_admin_alert-cases e s) [
      | inl skipped ↦
          rw (report-sent e now n row s s first skipped h)
            (count-marked f (build_fingerprint env e) (mark now) s.errors)
      | inr (inl sent) ↦
          rw (report-sent e now n row s (record s { alerts = e ∷ s.alerts }) first sent h)
            (count-marked f (build_fingerprint env e) (mark now) s.errors)
      | inr (inr failed) ↦ rw (report-failed e now n s first failed) refl
    ]
  ]

  pub count-execute :
      (f : String) (e : Occurrence) (s : Tracker)
      → count_of f (execute env e s).errors
        ≡ one_if (is_storable e && build_fingerprint env e === f) + count_of f s.errors
  count-execute f e s = elim (Bool-cases (is_storable e)) [
    | inr big ↦ rw (execute-refused e s big, big) omega arith
    | inl fits ↦
        let fp = build_fingerprint env e in
        let (row, found, seen) = upserted-found fp e s.now s.next_id s.errors in
        rw (execute-storable e s fits, fits)
          (count-report f e s.now (count_of fp s.errors + 1) row (counted e s) found
            ∙ count-upserted fp e s.now s.next_id s.errors f)
  ]

  -- Whatever happens to the mails: the row of an error counts how often it was seen before and all
  -- its occurrences since, those left out whose name or method is too long for its column.
  pub count-execute_all :
      (f : String) (occurrences : List (ℕ × Occurrence)) (s : Tracker)
      → count_of f (execute_all env occurrences s).errors
        ≡ tally env f occurrences + count_of f s.errors
  unfolding execute_all
  count-execute_all f [] s = omega arith
  count-execute_all f ((now, e) ∷ rest) s =
      count-execute_all f rest (execute env e (record s { now = now }))
      ∙ rw (count-execute f e (record s { now = now })) omega arith
