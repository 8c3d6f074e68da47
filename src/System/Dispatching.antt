-- ===== src/System/Dispatching.antt =====
-- The dispatcher, the scheduler and the compensators keep the tables evolving.
use etask.Base.{String, refl, Bool, [], ◌∷◌}
use etask.Errs.{Result, ok, err, task_preempt_failed}
use etask.Domain.Status.{ExecutionStatus, failed_retryable, failed_rescheduled, is_terminal_status}
use etask.Domain.Route.{ExecutionRoute}
use etask.Domain.Execution.{TaskExecution, ExecutionState}
use etask.Domain.Task.{Task}
use etask.Store.Obeys.{Obeys}
use etask.Execution.Diagram.Steps.{Evolves, AwaitsRetry, retryable, rescheduled, dispatched_again}
use etask.Execution.Diagram.Statements.{evolves_rules}
use etask.Execution.Queries.{has_non_terminal_by_task_id}
use etask.Execution.Service.Lifecycle.{
  update_state-Evolves, schedule_result-Evolves, requeue_pull-Evolves,
}
use etask.Task.Lock.Statements.{task_rules}
use etask.System.Leases.{acquire_task-Evolves, release_task-Evolves}
use etask.System.Creating.{create_execution-Evolves}
use etask.Dispatch.Routing.{Services, Route, plan}
use etask.Dispatch.Dispatcher.{
  mark_invocation_failed, with_slot, invoke_async, call_answered, give_back, created_or_released,
  handle_normal_task, with_route, with_acquired, has_running_execution, dispatch,
  claim_for_dispatch, claim_report, dispatch_again, retry, reschedule,
}

mark_invocation_failed-Evolves :
    (e : TaskExecution) (text : String) → Obeys Evolves (mark_invocation_failed e text)
unfolding mark_invocation_failed
mark_invocation_failed-Evolves e text = search (task_rules, update_state-Evolves)

with_slot-Evolves :
    (e : TaskExecution) (prefix : String) (r : Result (Unit {0}))
    → Obeys Evolves (with_slot e prefix r)
unfolding with_slot
with_slot-Evolves e prefix (ok _) = search task_rules
with_slot-Evolves e prefix (err x) = search (task_rules, mark_invocation_failed-Evolves)

invoke_async-Evolves :
    (s : Services) (e : TaskExecution) (prefix : String) → Obeys Evolves (invoke_async s e prefix)
unfolding invoke_async
invoke_async-Evolves s e prefix = with_slot-Evolves e prefix s.slot

pub call_answered-Evolves :
    (e : TaskExecution) (prefix : String) (r : Result ExecutionState)
    → Obeys Evolves (call_answered e prefix r)
unfolding call_answered
call_answered-Evolves e prefix (ok state) = search (task_rules, update_state-Evolves)
call_answered-Evolves e prefix (err x) = mark_invocation_failed-Evolves e prefix

give_back-Evolves : (t : Task) (node : String) → Obeys Evolves (give_back t node)
unfolding give_back
give_back-Evolves t node = search (task_rules, release_task-Evolves)

module _ (s : Services) (node : String) where
  created_or_released-Evolves :
      (t : Task) (pulls : Bool) (r : Result TaskExecution)
      → Obeys Evolves (created_or_released s node t pulls r)
  unfolding created_or_released
  created_or_released-Evolves t pulls (ok e) = search (task_rules, invoke_async-Evolves)
  created_or_released-Evolves t pulls (err x) = search (task_rules, give_back-Evolves)

  handle_normal_task-Evolves :
      (t : Task) (r : ExecutionRoute) → Obeys Evolves (handle_normal_task s node t r)
  unfolding handle_normal_task
  handle_normal_task-Evolves t r =
      search (task_rules, create_execution-Evolves, created_or_released-Evolves) depth 8

  with_route-Evolves : (t : Task) (r : Result Route) → Obeys Evolves (with_route s node t r)
  unfolding with_route
  with_route-Evolves t (ok (planned, r)) = handle_normal_task-Evolves planned r
  with_route-Evolves t (err x) = search (task_rules, give_back-Evolves)

  with_acquired-Evolves : (r : Result Task) → Obeys Evolves (with_acquired s node r)
  unfolding with_acquired
  with_acquired-Evolves (ok t) = with_route-Evolves t (plan s t)
  with_acquired-Evolves (err task_preempt_failed) = search task_rules
  with_acquired-Evolves (err _) = search task_rules

  has_running_execution-Evolves : (t : Task) → Obeys Evolves (has_running_execution t)
  unfolding has_running_execution has_non_terminal_by_task_id
  has_running_execution-Evolves t = search evolves_rules depth 8

  pub dispatch-Evolves : (t : Task) → Obeys Evolves (dispatch s node t)
  unfolding dispatch
  dispatch-Evolves t =
      search
        (task_rules, has_running_execution-Evolves, acquire_task-Evolves, with_acquired-Evolves)
        depth 9

pub claim_for_dispatch-Evolves :
    (e : TaskExecution) (expected : ExecutionStatus)
    → AwaitsRetry expected
    → Obeys Evolves (claim_for_dispatch e expected)
unfolding claim_for_dispatch is_terminal_status
claim_for_dispatch-Evolves e failed_retryable a =
    schedule_result-Evolves e.id (failed_retryable ∷ []) (claim_report e) ""
      (record { open_row = refl; step = dispatched_again retryable }, tt)
claim_for_dispatch-Evolves e failed_rescheduled a =
    schedule_result-Evolves e.id (failed_rescheduled ∷ []) (claim_report e) ""
      (record { open_row = refl; step = dispatched_again rescheduled }, tt)
claim_for_dispatch-Evolves e _ a = elim a [ ]

dispatch_again-Evolves :
    (s : Services) (e : TaskExecution) (expected : ExecutionStatus) (prefix : String)
    → AwaitsRetry expected
    → Obeys Evolves (dispatch_again s e expected prefix)
unfolding dispatch_again
dispatch_again-Evolves s e expected prefix a =
    search (task_rules, requeue_pull-Evolves, claim_for_dispatch-Evolves, invoke_async-Evolves)
      depth 9

pub retry-Evolves : (s : Services) (e : TaskExecution) → Obeys Evolves (retry s e)
unfolding retry
retry-Evolves s e =
    dispatch_again-Evolves s e failed_retryable "Invocation failed during retry" retryable

pub reschedule-Evolves : (s : Services) (e : TaskExecution) → Obeys Evolves (reschedule s e)
unfolding reschedule
reschedule-Evolves s e =
    dispatch_again-Evolves s e failed_rescheduled "Invocation failed during reschedule" rescheduled
