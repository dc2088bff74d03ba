-- ===== src/ActivityLog/Modes.antt =====
-- The two ways in which a request is logged.
use nestjs_template.Common.{
  if-true, if-false, ℕ, suc, ◌+◌, ◌≡◌, ◌∙◌, sym, ap, refl, true, false, not, none, some, List, [],
  ◌∷◌, ◌++◌, any, every, is_some, update_where, length, ◌==◌, ==_refl, arith,
}
use nestjs_template.ActivityLog.{
  either, add_user_log, add_request_log, safe_update, user_row, UserLogParams, RequestContext,
  HttpRequest, RequestLog, Ending, LogTables, status_code_of, request_row, log_user_activity,
  log_all, handle_direct, consume_user_logs, consume, handle_rabbitmq,
}

update_where-last :
    (f : RequestLog → RequestLog) (id : ℕ) (row : RequestLog) (rows : List RequestLog)
    → any (λ l. l.id == id) rows ≡ false
    → row.id ≡ id
    → update_where (λ l. l.id == id) f (rows ++ row ∷ []) ≡ rows ++ f row ∷ []
update_where-last f id row [] h own = rw (own, ==_refl id) refl
update_where-last f id row (l ∷ rows) h own = ground (arith, update_where-last f id row rows)

-- Logs without an id of their own go to the request of the context, as those of a bundle do.
log_all-consume :
    (ctx : RequestContext) (id : ℕ) (logs : List UserLogParams) (s : LogTables)
    → ctx.request_log_id ≡ some id
    → every (λ p. not (is_some p.request_log_id)) logs ≡ true
    → log_all ctx logs s ≡ consume_user_logs id logs s
unfolding log_all log_user_activity consume_user_logs
log_all-consume ctx id [] s same h = refl
log_all-consume ctx id (p ∷ ps) s same h =
    let first : either p.request_log_id ctx.request_log_id ≡ some id = ground (arith, same) in
    ap (λ o. log_all ctx ps (add_user_log o p s)) first
    ∙ log_all-consume ctx id ps (add_user_log (some id) p s) same (ground arith)

-- The user logs of a bundle do not touch the rows of requests.
consume-with :
    (id : ℕ) (logs : List UserLogParams) (s : LogTables) (rows : List RequestLog)
    → consume_user_logs id logs (record s { request_logs = rows })
      ≡ record (consume_user_logs id logs s) { request_logs = rows }
unfolding consume_user_logs
consume-with id [] s rows = refl
consume-with id (p ∷ ps) s rows = consume-with id ps (add_user_log (some id) p s) rows

consume-requests :
    (id : ℕ) (logs : List UserLogParams) (s : LogTables)
    → (consume_user_logs id logs s).request_logs ≡ s.request_logs
unfolding consume_user_logs
consume-requests id [] s = refl
consume-requests id (p ∷ ps) s = consume-requests id ps (add_user_log (some id) p s)

log_all-none :
    (ctx : RequestContext) (logs : List UserLogParams) (s : LogTables)
    → (log_all ctx logs s).request_logs ≡ s.request_logs
unfolding log_all log_user_activity
log_all-none ctx [] s = refl
log_all-none ctx (p ∷ ps) s = log_all-none ctx ps (log_user_activity ctx p s)

length-append_one : {A : Type 0} (xs : List A) (x : A) → length (xs ++ x ∷ []) ≡ suc (length xs)
length-append_one [] x = refl
length-append_one (y ∷ xs) x = ap suc (length-append_one xs x)

log_all-length :
    (ctx : RequestContext) (logs : List UserLogParams) (s : LogTables)
    → length (log_all ctx logs s).user_logs ≡ length s.user_logs + length logs
unfolding log_all log_user_activity
log_all-length ctx [] s = omega arith
log_all-length ctx (p ∷ ps) s =
    log_all-length ctx ps (log_user_activity ctx p s)
    ∙ rw
        (length-append_one s.user_logs
          (user_row (either p.request_log_id ctx.request_log_id) p s.next_user_id))
        omega arith

module _ (ctx : RequestContext) (req : HttpRequest) (ending : Ending) (duration : ℕ) where
  -- The request's row when it begins, and when it has ended.
  abbrev begun : ℕ → RequestLog
  begun = request_row ctx req none none

  abbrev ended : ℕ → RequestLog
  ended = request_row ctx req (some (status_code_of ending)) (some duration)

  updated_eq :
      (logs : List UserLogParams) (s : LogTables)
      → any (λ l. l.id == s.next_request_id) s.request_logs ≡ false
      → safe_update s.next_request_id
          (status_code_of ending)
          duration
          (consume_user_logs s.next_request_id logs (add_request_log begun s))
        ≡ consume_user_logs s.next_request_id logs (add_request_log ended s)
  updated_eq logs s fresh =
      let id = s.next_request_id in
      let after = consume_user_logs id logs (add_request_log begun s) in
      ap
        (λ rows. record after {
          request_logs =
              update_where (λ l. l.id == id)
                (λ l. record l {
                  status_code = some (status_code_of ending);
                  duration_ms = some duration;
                })
                rows;
        })
        (consume-requests id logs (add_request_log begun s))
      ∙ ap (λ rows. record after { request_logs = rows })
          (update_where-last _ id (begun id) s.request_logs fresh refl)
      ∙ sym (consume-with id logs (add_request_log begun s) (s.request_logs ++ ended id ∷ []))

  -- A request is logged alike in both modes: directly and through the queue the tables end the same,
  -- where the database takes the row, its next key is free, nothing was collected before, and no
  -- user action names a request of its own.
  pub handle_direct-rabbitmq :
      (logs : List UserLogParams) (s : LogTables)
      → s.refuses ≡ false
      → any (λ l. l.id == s.next_request_id) s.request_logs ≡ false
      → ctx.pending_user_logs ≡ []
      → every (λ p. not (is_some p.request_log_id)) logs ≡ true
      → handle_direct ctx req logs ending duration s
        ≡ handle_rabbitmq ctx req logs ending duration s
  unfolding handle_direct handle_rabbitmq consume
  handle_direct-rabbitmq logs s takes fresh empty plain =
      let id = s.next_request_id in
      if-false _ _ s.refuses takes
      ∙ ap (safe_update id (status_code_of ending) duration) (
          log_all-consume (record ctx { request_log_id = some id }) id logs
            (add_request_log begun s) refl plain)
      ∙ updated_eq logs s fresh
      ∙ sym (
          if-false _ _ s.refuses takes
          ∙ ap (λ before. consume_user_logs id (before ++ logs) (add_request_log ended s)) empty)

  -- Where the database refuses the row of the request, the direct mode still has a row for every
  -- user action, and the queue has none of them; the rows of requests stay as they were.
  pub handle_refused :
      (logs : List UserLogParams) (s : LogTables)
      → s.refuses ≡ true
      → (length (handle_direct ctx req logs ending duration s).user_logs
          ≡ length s.user_logs + length logs)
        × ((handle_direct ctx req logs ending duration s).request_logs ≡ s.request_logs)
        × (handle_rabbitmq ctx req logs ending duration s ≡ s)
  unfolding handle_direct handle_rabbitmq consume
  handle_refused logs s refused =
      let direct = if-true {A = LogTables} _ _ s.refuses refused in
      (
        ap (λ t. length t.user_logs) direct ∙ log_all-length ctx logs s,
        ap (λ t. t.request_logs) direct ∙ log_all-none ctx logs s,
        if-true _ _ s.refuses refused,
      )
