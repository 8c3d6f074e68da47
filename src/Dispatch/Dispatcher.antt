-- ===== src/Dispatch/Dispatcher.antt =====
-- internal/service/dispatcher/task.go. The call of an executor runs in a goroutine: here it is the
-- message `invoked`, and its answer comes back later as a report of its own (`call_answered`).
use etask.Base.{String, Bool, false, [], ◌∷◌, pos, if◌then◌else◌}
use etask.Errs.{Result, ok, err, task_preempt_failed}
use etask.Domain.Status.{
  ExecutionStatus, prepare, waiting_pull, failed, failed_retryable, failed_rescheduled,
}
use etask.Domain.Route.{ExecutionRoute, is_pull}
use etask.Domain.Execution.{TaskExecution, ExecutionState}
use etask.Domain.Task.{Task, is_preempted}
use etask.Store.{invoked}
use etask.Store.Action.{Action, pure, fail, try, emit, ◌>>=◌, ◌>>◌}
use etask.Execution.Updates.{Report}
use etask.Execution.Queries.{has_non_terminal_by_task_id}
use etask.Execution.Service.{update_state, schedule_result, requeue_pull}
use etask.Task.Service.{acquire_task, release_task}
use etask.Dispatch.Routing.{Services, Route, plan}
use etask.Dispatch.Creation.{create_execution}

abbrev pub failure_of : TaskExecution → String → ExecutionState
failure_of e text = record {
  id = e.id;
  task_id = e.task_id;
  status = failed;
  running_progress = pos 0;
  request_reschedule = false;
  reschedule_params = [];
  executor_node_id = "";
  task_result = text;
}

-- `markInvocationFailed`: what goes wrong here is only logged.
unfoldable pub mark_invocation_failed : TaskExecution → String → Action (Unit {0})
mark_invocation_failed e text = do try (update_state (failure_of e text)); pure tt

unfoldable pub with_slot : TaskExecution → String → Result (Unit {0}) → Action (Unit {0})
with_slot e prefix (err x) = do mark_invocation_failed e prefix; fail x
with_slot e prefix (ok _) = emit (invoked e.id)

-- `invokeAsync`, up to the start of the goroutine
unfoldable pub invoke_async : Services → TaskExecution → String → Action (Unit {0})
invoke_async s e prefix = with_slot e prefix s.slot

-- the rest of `invokeAsync`: the answer of the invoker, an error, or a panic
unfoldable pub call_answered : TaskExecution → String → Result ExecutionState → Action (Unit {0})
call_answered e prefix (ok state) = do try (update_state state); pure tt
call_answered e prefix (err x) = mark_invocation_failed e prefix

-- `releaseTask`
unfoldable pub give_back : Task → String → Action (Unit {0})
give_back t node = do try (release_task t.id node); pure tt

unfoldable pub created_or_released :
    Services → String → Task → Bool → Result TaskExecution → Action (Unit {0})
created_or_released s node t pulls (err x) = do give_back t node; fail x
created_or_released s node t pulls (ok e) =
    if pulls then pure tt else invoke_async s e "Invocation failed"

-- `handleNormalTask`
unfoldable pub handle_normal_task : Services → String → Task → ExecutionRoute → Action (Unit {0})
handle_normal_task s node t r = do
  created ← try (create_execution s t r (if is_pull t.exec_mode then waiting_pull else prepare))
  created_or_released s node t (is_pull t.exec_mode) created

unfoldable pub with_route : Services → String → Task → Result Route → Action (Unit {0})
with_route s node t (err x) = do give_back t node; fail x
with_route s node t (ok (planned, r)) = handle_normal_task s node planned r

unfoldable pub with_acquired : Services → String → Result Task → Action (Unit {0})
with_acquired s node (ok t) = with_route s node t (plan s t)
with_acquired s node (err task_preempt_failed) = pure tt
with_acquired s node (err x) = fail x

unfoldable pub has_running_execution : Task → Action Bool
has_running_execution t =
    if is_preempted t.status then has_non_terminal_by_task_id t.id else pure false

-- `Run`
unfoldable pub dispatch : Services → String → Task → Action (Unit {0})
dispatch s node t = do
  active ← has_running_execution t
  if active
      then pure tt
      else do acquired ← try (acquire_task t.id t.version node); with_acquired s node acquired

abbrev pub claim_report : TaskExecution → Report
claim_report e = record {
  status = prepare;
  progress = e.running_progress;
  end_time = 0;
  schedule_params = e.schedule_params;
  executor_node_id = "";
}

-- `claimForDispatch`
unfoldable pub claim_for_dispatch : TaskExecution → ExecutionStatus → Action Bool
claim_for_dispatch e expected = schedule_result e.id (expected ∷ []) (claim_report e) ""

unfoldable pub dispatch_again :
    Services → TaskExecution → ExecutionStatus → String → Action (Unit {0})
dispatch_again s e expected prefix = if is_pull e.route.dispatch_mode then requeue_pull e.id else do
  claimed ← claim_for_dispatch e expected
  if claimed then invoke_async s e prefix else pure tt

-- `Retry`
unfoldable pub retry : Services → TaskExecution → Action (Unit {0})
retry s e = dispatch_again s e failed_retryable "Invocation failed during retry"

-- `Reschedule`
unfoldable pub reschedule : Services → TaskExecution → Action (Unit {0})
reschedule s e = dispatch_again s e failed_rescheduled "Invocation failed during reschedule"
