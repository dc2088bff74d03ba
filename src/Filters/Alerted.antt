-- ===== src/Filters/Alerted.antt =====
-- Which exceptions are tracked and reported.
use nestjs_template.Common.{
  ℕ, String, ◌≡◌, refl, ◌∙◌, ap, true, false, not, List, [], ◌∷◌, leb, ◌==◌, Bool-cases, inl, inr,
  arith, if◌then◌else◌,
}
use nestjs_template.ErrorTracking.{Occurrence, Tracker, execute, execute_all}
use nestjs_template.ErrorTracking.Rows.{one_if}
use nestjs_template.ErrorTracking.Counted.{tally}
use nestjs_template.ErrorTracking.Reported.{alerts_of, IsReporting, execute_all-once}
use nestjs_template.Filters.{
  Exception, AppRequest, FilterEnv, Watched, code_of, occurrence_of, watch, catch, catch_all,
}

-- The exceptions with a status of the server, as the tracker sees them.
abbrev pub serious : List (ℕ × Exception × AppRequest) → List (ℕ × Occurrence)
serious [] = []
serious ((now, e, req) ∷ rest) =
    let later = serious rest in
    if leb 500 (code_of e) then (now, occurrence_of e req) ∷ later else later

module _ (env : FilterEnv) where
  -- The tracker after one exception.
  catch-tracked :
      (e : Exception) (req : AppRequest) (s : Watched)
      → leb 500 (code_of e) ≡ true
      → (catch env e req s).1.tracker ≡ execute env.tracking (occurrence_of e req) s.tracker
  unfolding catch watch
  catch-tracked e req s h = ground (arith, h)

  catch-untracked :
      (e : Exception) (req : AppRequest) (s : Watched)
      → leb 500 (code_of e) ≡ false
      → (catch env e req s).1.tracker ≡ s.tracker
  unfolding catch watch
  catch-untracked e req s h = ground (arith, h)

  -- Only the alerts of a tracker are compared: its clock is also set by exceptions that are not tracked.
  alerts_at :
      (now : ℕ) (occurrences : List (ℕ × Occurrence)) (t : Tracker)
      → (execute_all env.tracking occurrences (record t { now = now })).alerts
        ≡ (execute_all env.tracking occurrences t).alerts
  unfolding execute_all
  alerts_at now [] t = refl
  alerts_at now ((_, e) ∷ rest) t = refl

  catch_all-alerts :
      (exceptions : List (ℕ × Exception × AppRequest)) (s : Watched)
      → (catch_all env exceptions s).tracker.alerts
        ≡ (execute_all env.tracking (serious exceptions) s.tracker).alerts
  unfolding catch_all execute_all
  catch_all-alerts [] s = refl
  catch_all-alerts ((now, e, req) ∷ rest) s =
      let clocked = record s { tracker = record s.tracker { now = now } } in
      let next = (catch env e req clocked).1 in
      elim (Bool-cases (leb 500 (code_of e))) [
        | inl yes_ ↦
            catch_all-alerts rest next
            ∙ ap (λ t. (execute_all env.tracking (serious rest) t).alerts)
                (catch-tracked e req clocked yes_)
            ∙ rw yes_ refl
        | inr no_ ↦
            catch_all-alerts rest next
            ∙ ap (λ t. (execute_all env.tracking (serious rest) t).alerts)
                (catch-untracked e req clocked no_)
            ∙ alerts_at now (serious rest) s.tracker
            ∙ rw no_ refl
      ]

  -- From an empty table, in production and with a mail service that takes the alerts, whatever
  -- exceptions reach the filter: of each error exactly one alert is sent if it was thrown with a status
  -- of 500 or more at all, and none if it was not. An occurrence whose name or method is too long for
  -- its column does not count.
  pub catch_all-once :
      (reporting : IsReporting env.tracking) (f : String)
      (exceptions : List (ℕ × Exception × AppRequest)) (s : Watched)
      → s.tracker.errors ≡ []
      → s.tracker.alerts ≡ []
      → alerts_of env.tracking f (catch_all env exceptions s).tracker.alerts
        ≡ one_if (not (tally env.tracking f (serious exceptions) == 0))
  catch_all-once reporting f exceptions s no_errors no_alerts =
      ap (alerts_of env.tracking f) (catch_all-alerts exceptions s)
      ∙ execute_all-once env.tracking reporting f (serious exceptions) s.tracker no_errors no_alerts
