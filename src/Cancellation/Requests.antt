-- ===== src/Cancellation/Requests.antt =====
-- internal/repository/dao/execution_cancellation.go: accepting a cancellation, which ends the
-- execution and frees its task in one transaction. Rows are locked in the source; a transaction is
-- one step here.
use etask.Base.{
  ℕ, suc, String, Bool, true, false, not, ◌&&◌, ◌||◌, [], ◌∷◌, ◌++◌, Option, none, some, ◌==◌,
  str_eq, if◌then◌else◌, first_where, any_where, update_where,
}
use etask.Errs.{
  Result, ok, err, record_not_found, request_mismatch, missing_request_id, cancellation_terminal,
}
use etask.Domain.Status.{
  ExecutionStatus, cancelled, non_terminal_statuses, is_terminal_status, is_valid_status,
  is_cancelled, is_workflow, source_workflow,
}
use etask.Domain.Route.{is_empty}
use etask.Domain.Execution.{TaskExecution, TaskType, one_time, recurring}
use etask.Domain.Task.{TaskStatus, active, completed}
use etask.Domain.Cancellation.{ExecutionCancellation, waiting_execution, pending, sent, is_sent}
use etask.Store.{World}
use etask.Store.Action.{Action, pure, fail, throw, gets, statement, transaction, ◌>>=◌, ◌>>◌}
use etask.Execution.Table.{has_id, select_executions, update_executions, found_or, requested}
use etask.Execution.Updates.{in_status}
use etask.Task.Table.{update_tasks, task_id_is, leased_to, freed}

abbrev pub change_cancellations :
    (World → ExecutionCancellation → Bool)
    → (ExecutionCancellation → ExecutionCancellation)
    → Action (Unit {0})
change_cancellations p f w =
    (ok tt, record w { cancellations = update_where (p w) f w.cancellations })

unfoldable pub update_cancellations :
    (World → ExecutionCancellation → Bool)
    → (ExecutionCancellation → ExecutionCancellation)
    → Action (Unit {0})
update_cancellations p f = statement (change_cancellations p f)

abbrev pub in_tenant : World → ExecutionCancellation → Bool
in_tenant w c = w.scope_of w.tenant c.tenant_id

abbrev pub has_request : String → World → ExecutionCancellation → Bool
has_request request w c = in_tenant w c && str_eq c.request_id request

abbrev in_scope_execution : World → TaskExecution → Bool
in_scope_execution w e = w.scope_of w.tenant e.tenant_id

abbrev workflow_id : Option String → Result String
workflow_id none = err missing_request_id
workflow_id (some r) = if is_empty r then err missing_request_id else ok r

-- WORKFLOW executions have their own request id, the others one made from the source and the id.
abbrev pub resolved_id : World → TaskExecution → Result String
resolved_id w e =
    if is_workflow e.source then workflow_id e.request_id else ok (w.request_text e.source e.id)

abbrev pub visible_id : ℕ → World → TaskExecution → Bool
visible_id i w e = in_scope_execution w e && has_id i e

-- `resolveCancellationRequestID`
unfoldable pub resolve_request_id : ℕ → String → Action String
resolve_request_id i request = if i == 0 then pure request else do
  found ← select_executions (λ w. first_where (visible_id i w) w.executions)
  e ← throw (found_or (err record_not_found) found)
  name ← gets (λ w. resolved_id w e)
  resolved ← throw name
  if not (is_empty request) && not (str_eq request resolved)
      then fail request_mismatch
      else pure resolved

abbrev pub target : ℕ → String → World → TaskExecution → Bool
target i request w e =
    if i == 0
    then in_scope_execution w e && requested source_workflow request e
    else visible_id i w e

-- `lockCancellationTarget`
unfoldable pub lock_target : ℕ → String → Action (Option TaskExecution)
lock_target i request = select_executions (λ w. first_where (target i request w) w.executions)

-- `lockCancellation`
unfoldable pub lock_cancellation : String → Action (Option ExecutionCancellation)
lock_cancellation request =
    statement (gets (λ w. first_where (has_request request w) w.cancellations))

abbrev pub fresh_cancellation : World → String → String → ExecutionCancellation
fresh_cancellation w request reason = record {
  id = w.next_cancellation_id;
  tenant_id = w.tenant;
  request_id = request;
  execution_id = none;
  reason = reason;
  delivery_status = waiting_execution;
  attempt_count = 0;
  next_attempt_at = 0;
  failing = false;
  ctime = w.now;
  utime = w.now;
}

abbrev pub same_key : ℕ → String → ExecutionCancellation → Bool
same_key tenant request c = c.tenant_id == tenant && str_eq c.request_id request

-- INSERT … ON CONFLICT DO NOTHING
abbrev pub insert_cancellation : String → String → Action (Unit {0})
insert_cancellation request reason w =
    if any_where (same_key w.tenant request) w.cancellations then (ok tt, w) else (
      ok tt,
      record w {
        cancellations = w.cancellations ++ (fresh_cancellation w request reason ∷ []);
        next_cancellation_id = suc w.next_cancellation_id;
      },
    )

abbrev cancellation_or : Option ExecutionCancellation → Result ExecutionCancellation
cancellation_or none = err record_not_found
cancellation_or (some c) = ok c

-- `lockOrCreateCancellation`
unfoldable pub lock_or_create_cancellation : String → String → Action ExecutionCancellation
lock_or_create_cancellation request reason = do
  statement (insert_cancellation request reason)
  found ← lock_cancellation request
  throw (cancellation_or found)

abbrev cancellation_id_is : ℕ → World → ExecutionCancellation → Bool
cancellation_id_is i w c = in_tenant w c && c.id == i

-- `keepCancellationWaiting`
unfoldable pub keep_waiting : ℕ → String → Action (Unit {0})
keep_waiting i reason = do
  now ← gets (λ w. w.now)
  update_cancellations (cancellation_id_is i) (λ c. record c {
    reason = reason;
    delivery_status = waiting_execution;
    failing = false;
    next_attempt_at = 0;
    utime = now;
  })

-- `cancelExecution`
unfoldable pub cancel_execution : ℕ → String → Action (Unit {0})
cancel_execution i reason = do
  now ← gets (λ w. w.now)
  affected ←
      update_executions (in_status i non_terminal_statuses)
        (λ e. record e { status = cancelled; etime = now; task_result = reason; utime = now })
  if affected == 0 then fail cancellation_terminal else pure tt

abbrev freed_status : TaskType → TaskStatus
freed_status one_time = completed
freed_status recurring = active

-- `releaseTaskOnCancellation`
unfoldable pub release_on_cancellation : TaskExecution → Action (Unit {0})
release_on_cancellation e = if (e.task_id == 0) || is_empty e.schedule_node_id then pure tt else do
  now ← gets (λ w. w.now)
  update_tasks (λ w t. task_id_is e.task_id w t && leased_to e.schedule_node_id t)
      (freed (freed_status e.task_type) now)
  pure tt

abbrev delivered_again :
    ℕ → ℕ → String → ExecutionCancellation → ExecutionCancellation → ExecutionCancellation
delivered_again now i reason locked c = record c {
  execution_id = some i;
  reason = if is_sent locked.delivery_status then locked.reason else reason;
  delivery_status = if is_sent locked.delivery_status then sent else pending;
  failing = false;
  next_attempt_at = if is_sent locked.delivery_status then 0 else now;
  utime = now;
}

-- `scheduleCancellationDelivery`
unfoldable pub schedule_delivery : ExecutionCancellation → ℕ → String → Action (Unit {0})
schedule_delivery locked i reason = do
  now ← gets (λ w. w.now)
  update_cancellations (cancellation_id_is locked.id) (delivered_again now i reason locked)

abbrev pub has_ended : ExecutionStatus → Bool
has_ended s = not (is_valid_status s) || (is_terminal_status s && not (is_cancelled s))

-- `bindCancellation`
unfoldable pub bind_cancellation :
    ExecutionCancellation → TaskExecution → String → Action (Unit {0})
bind_cancellation c e reason = if has_ended e.status then fail cancellation_terminal else do
  if is_cancelled e.status
      then pure tt
      else do cancel_execution e.id reason; release_on_cancellation e
  schedule_delivery c e.id reason

unfoldable pub bind_or_wait :
    ℕ → ExecutionCancellation → String → Option TaskExecution → Action (Unit {0})
bind_or_wait i c reason (some e) = bind_cancellation c e reason
bind_or_wait i c reason none = if i == 0 then keep_waiting c.id reason else fail record_not_found

-- `Request`
unfoldable pub request_cancellation : ℕ → String → String → Action (Unit {0})
request_cancellation i request reason = transaction (do
  resolved ← resolve_request_id i request
  c ← lock_or_create_cancellation resolved reason
  e ← lock_target i resolved
  bind_or_wait i c reason e)

unfoldable pub attach_found : ℕ → Option ExecutionCancellation → Action Bool
attach_found i none = pure false
attach_found i (some c) = do
  found ← select_executions (λ w. first_where (visible_id i w) w.executions)
  e ← throw (found_or (err record_not_found) found)
  bind_cancellation c e c.reason
  pure true

-- `Attach`: binds a cancellation that came before its execution
unfoldable pub attach : ℕ → String → Action Bool
attach i request = transaction (do c ← lock_cancellation request; attach_found i c)
