-- ===== src/Cancellation/Delivery.antt =====
-- internal/service/termination/service.go and the rest of the cancellation table: the checks of a
-- request, and the delivery of the signal to the executor with its backoff. The transport to the
-- executor (internal/service/invoker) is a message that may fail; the answer of a route that has
-- no control channel is success.
use etask.Base.{
  ℕ, suc, ◌+◌, ◌*◌, ◌^◌, String, Bool, true, false, not, ◌&&◌, ◌||◌, List, [], ◌∷◌, Option, none,
  some, leb, ltb, ◌==◌, if◌then◌else◌, take, keep_where, sort_by, trim_space, rune_count,
}
use etask.Errs.{Result, ok, err, cancellation_terminal, rejected, invalid_command}
use etask.Domain.Status.{is_terminal_status, is_workflow}
use etask.Domain.Route.{is_empty, Transport, grpc, mq, validate_route}
use etask.Domain.Execution.{TaskExecution}
use etask.Domain.Cancellation.{ExecutionCancellation, sent, is_pending}
use etask.Store.{World, terminated}
use etask.Store.Action.{
  Action, pure, fail, throw, try, gets, emit, statement, as_tenant, ◌>>=◌, ◌>>◌,
}
use etask.Execution.Table.{get_by_id}
use etask.Execution.Queries.{find_non_terminal_by_task_id}
use etask.Cancellation.Requests.{update_cancellations, in_tenant, request_cancellation, attach}

abbrev is_bound : Option ℕ → Bool
is_bound none = false
is_bound (some _) = true

abbrev pub is_due : ℕ → ExecutionCancellation → Bool
is_due now c = is_pending c.delivery_status && is_bound c.execution_id && leb c.next_attempt_at now

-- `ListPending`, of every tenant
unfoldable pub list_pending : ℕ → Action (List ExecutionCancellation)
list_pending limit = statement (
    gets (λ w.
      take limit (sort_by (λ c. c.next_attempt_at) (keep_where (is_due w.now) w.cancellations))))

abbrev pub pending_cancellation : ℕ → World → ExecutionCancellation → Bool
pending_cancellation i w c = in_tenant w c && c.id == i && is_pending c.delivery_status

-- `MarkSent`
unfoldable pub mark_sent : ℕ → Action (Unit {0})
mark_sent i = do
  now ← gets (λ w. w.now)
  update_cancellations (pending_cancellation i)
      (λ c. record c { delivery_status = sent; failing = false; next_attempt_at = 0; utime = now })

-- `MarkFailed`
unfoldable pub mark_failed : ℕ → ℕ → Action (Unit {0})
mark_failed i next_attempt_at = do
  now ← gets (λ w. w.now)
  update_cancellations (pending_cancellation i) (λ c. record c {
    attempt_count = c.attempt_count + 1;
    failing = true;
    next_attempt_at = next_attempt_at;
    utime = now;
  })

-- `cancellationBackoff`, in milliseconds
unfoldable pub cancellation_backoff : ℕ → ℕ
cancellation_backoff attempts = 1000 * 2 ^ (if ltb 6 attempts then 6 else attempts)

unfoldable pub send_signal : Transport → TaskExecution → String → Action (Unit {0})
send_signal grpc e reason = statement (emit (terminated e.id reason))
send_signal mq e reason = statement (emit (terminated e.id reason))
send_signal _ e reason = pure tt

-- `Terminate` of the invoker
unfoldable pub terminate : TaskExecution → String → Action (Unit {0})
terminate e reason = do throw (validate_route e.route); send_signal e.route.transport e reason

abbrev the_execution : Option ℕ → ℕ
the_execution none = 0
the_execution (some i) = i

unfoldable pub signal_if_open : ExecutionCancellation → Result TaskExecution → Action (Unit {0})
signal_if_open c (err x) = fail x
signal_if_open c (ok e) = if is_terminal_status e.status then pure tt else terminate e c.reason

unfoldable pub settle_delivery : ExecutionCancellation → Result (Unit {0}) → Action (Unit {0})
settle_delivery c (ok _) = mark_sent c.id
settle_delivery c (err x) = do
  now ← gets (λ w. w.now)
  try (mark_failed c.id (now + cancellation_backoff c.attempt_count))
  fail x

-- `deliver`
unfoldable pub deliver : ExecutionCancellation → Action (Unit {0})
deliver c = as_tenant c.tenant_id (do
  found ← try (get_by_id (the_execution c.execution_id))
  signalled ← try (signal_if_open c found)
  settle_delivery c signalled)

-- the loop of `DeliverPending`, which counts the failures that it joins
unfoldable pub deliver_all : List ExecutionCancellation → Action ℕ
deliver_all [] = pure 0
deliver_all (c ∷ cs) = do
  delivered ← try (deliver c)
  failures ← deliver_all cs
  pure (elim delivered [ ok _ ↦ failures | err _ ↦ suc failures ])

-- `DeliverPending`
unfoldable pub deliver_pending : ℕ → Action ℕ
deliver_pending limit = do cs ← list_pending (if limit == 0 then 100 else limit); deliver_all cs

abbrev translated : Result (Unit {0}) → Result (Unit {0})
translated (ok _) = ok tt
translated (err cancellation_terminal) = err rejected
translated (err x) = err x

abbrev bad_reason : String → Bool
bad_reason reason = is_empty reason || ltb 500 (rune_count reason)

-- `Request`
unfoldable pub request : ℕ → String → String → Action (Unit {0})
request i request_id reason =
    let key = trim_space request_id in
    let why = trim_space reason in
    if ((i == 0) && is_empty key) || bad_reason why then fail invalid_command else do
      tenant ← gets (λ w. w.tenant)
      if tenant == 0
          then fail invalid_command
          else do done ← try (request_cancellation i key why); throw (translated done)

-- `RequestExecution`
unfoldable pub request_execution : ℕ → String → Action (Unit {0})
request_execution i reason =
    let why = trim_space reason in
    if (i == 0) || bad_reason why then fail invalid_command else do
      tenant ← gets (λ w. w.tenant)
      if tenant == 0
          then fail invalid_command
          else do done ← try (request_cancellation i "" why); throw (translated done)

-- A rejected request is one that needs no cancellation any more.
abbrev is_failure : Result (Unit {0}) → Bool
is_failure (ok _) = false
is_failure (err rejected) = false
is_failure (err _) = true

unfoldable pub terminate_each : List TaskExecution → String → Action ℕ
terminate_each [] reason = pure 0
terminate_each (e ∷ es) reason = do
  done ← try (request_execution e.id reason)
  failures ← terminate_each es reason
  pure (if is_failure done then suc failures else failures)

-- `TerminateActiveByTaskID`
unfoldable pub terminate_active_by_task_id : ℕ → String → Action ℕ
terminate_active_by_task_id i reason =
    if i == 0
    then fail invalid_command
    else do actives ← find_non_terminal_by_task_id i; terminate_each actives reason

unfoldable pub attach_by : TaskExecution → Option String → Action TaskExecution
attach_by e none = pure e
attach_by e (some r) =
    if is_empty r
    then pure e
    else do attached ← attach e.id r; if attached then get_by_id e.id else pure e

-- `Attach`
unfoldable pub attach_execution : TaskExecution → Action TaskExecution
attach_execution e = if not (is_workflow e.source) then pure e else attach_by e e.request_id
