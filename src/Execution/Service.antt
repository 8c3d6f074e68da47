-- ===== src/Execution/Service.antt =====
-- internal/service/task/execution_service.go: what the service makes of the states that executors
-- report. The broadcast to the browsers is an output; it is sent by a goroutine that reads the
-- record again, and here it only names the execution.
pub mod Lifecycle
use etask.Base.{
  ℕ, suc, ◌+◌, ◌-◌, ◌/◌, String, Bool, true, false, not, List, [], ◌∷◌, Option, none, some, ℤ, pos,
  negsuc, ◌+ℤ◌, wrap_32, if◌then◌else◌, ◌==◌,
}
use etask.Errs.{
  Err, Result, ok, err, execution_not_found, invalid_execution_status, max_retries_exceeded,
  nil_dereference, invalid_command,
}
use etask.Domain.Status.{
  ExecutionStatus, ExecutionSource, unknown, waiting_pull, prepare, running, success, failed,
  failed_retryable, failed_rescheduled, cancelled, source_task, source_codebook_preview,
  source_workflow, is_terminal_status, is_running,
}
use etask.Domain.Route.{is_empty}
use etask.Domain.Execution.{
  TaskExecution, ExecutionState, RetryConfig, Params, merge_task_schedule_params,
}
use etask.Retry.{new_retry, next_with_retries}
use etask.Store.{World, CompleteEvent, completed, execution_changed}
use etask.Store.Action.{Action, pure, fail, throw, try, gets, emit, statement, ◌>>=◌, ◌>>◌}
use etask.Execution.Table.{get_by_id}
use etask.Execution.Updates.{
  Report, update_status, update_retry_result, update_schedule_result, set_running_state,
  update_progress,
}

-- `RequeuePull`
unfoldable pub requeue_pull : ℕ → Action (Unit {0})
requeue_pull i =
    if i == 0
    then fail invalid_command
    else update_status i (failed_retryable ∷ failed_rescheduled ∷ []) waiting_pull

-- `SetRunningState` and `setRunningState`
unfoldable pub report_running : ExecutionState → Action (Unit {0})
report_running s = do
  set_running_state s.id s.running_progress s.executor_node_id
  emit (execution_changed s.id)

-- `UpdateRunningProgress` and `updateRunningProgress`
unfoldable pub report_progress : ExecutionState → Action (Unit {0})
report_progress s = do
  update_progress s.id s.running_progress s.executor_node_id
  emit (execution_changed s.id)

abbrev pub report_of : ℕ → TaskExecution → ExecutionState → Report
report_of now e s = record {
  status = s.status;
  progress = s.running_progress;
  end_time = now;
  schedule_params = e.schedule_params;
  executor_node_id = s.executor_node_id;
}

-- `UpdateScheduleResult`: a write that met no row still needs the row to be there.
unfoldable pub schedule_result : ℕ → List ExecutionStatus → Report → String → Action Bool
schedule_result i expected r result = do
  updated ← update_schedule_result i expected r result
  if updated then (do emit (execution_changed i); pure true) else (do get_by_id i; pure false)

-- `updateState`
unfoldable pub record_state : TaskExecution → ExecutionState → Action (Unit {0})
record_state e s = do
  now ← gets (λ w. w.now)
  updated ← schedule_result s.id (e.status ∷ []) (report_of now e s) s.task_result
  if updated then pure tt else fail invalid_execution_status

-- now.Add(duration).UnixMilli(), with the clock in milliseconds; before 1970 there is no time
abbrev pub after_duration : ℕ → ℤ → ℕ
after_duration now (pos d) = now + d / 1000000
after_duration now (negsuc d) = now - (d / 1000000 + 1)

unfoldable pub retry_with : TaskExecution → ExecutionState → RetryConfig → Action (Unit {0})
retry_with e s c = do
  now ← gets (λ w. w.now)
  out_of_range ← gets (λ w. w.out_of_range)
  let next = next_with_retries out_of_range (new_retry c) (wrap_32 (pos (e.retry_count + 1)))
  if not next.2 then fail max_retries_exceeded else do
    update_retry_result s.id (e.retry_count + 1) (after_duration now next.1) (some e.status)
        (report_of now e s)
    emit (execution_changed s.id)

-- a method of the nil pointer `RetryConfig` reads its fields
unfoldable pub with_config : TaskExecution → ExecutionState → Option RetryConfig → Action (Unit {0})
unfolding retry_with
with_config e s none = fail nil_dereference
with_config e s (some c) = retry_with e s c

-- `updateRetryState`
unfoldable pub update_retry_state : TaskExecution → ExecutionState → Action (Unit {0})
unfolding with_config
update_retry_state e s = with_config e s e.retry_config

abbrev pub completion_of : TaskExecution → ExecutionState → CompleteEvent
completion_of e s = record {
  exec_id = e.id;
  schedule_node_id = e.schedule_node_id;
  exec_node_id = if is_empty s.executor_node_id then e.executor_node_id else s.executor_node_id;
  exec_status = s.status;
  task_id = e.task_id;
  task_result = s.task_result;
  source = e.source;
  request_id = e.request_id;
}

-- `sendCompletedEvent`
unfoldable pub send_completed_event : ExecutionState → TaskExecution → Action (Unit {0})
send_completed_event s e =
    if not (is_terminal_status s.status)
    then fail invalid_execution_status
    else statement (emit (completed (completion_of e s)))

abbrev pub as_failed : ExecutionState → ExecutionState
as_failed s = record s { status = failed }

-- the RUNNING case of the three handlers
unfoldable pub on_running : TaskExecution → ExecutionState → Action (Unit {0})
on_running e s = if is_running e.status then report_progress s else report_running s

-- out of retries: the completion consumer writes the failure
unfoldable pub give_up : TaskExecution → ExecutionState → Result (Unit {0}) → Action (Unit {0})
give_up e s (ok _) = pure tt
give_up e s (err max_retries_exceeded) = send_completed_event (as_failed s) e
give_up e s (err x) = fail x

abbrev pub with_reschedule : TaskExecution → ExecutionState → TaskExecution
with_reschedule e s = record e {
  schedule_params =
      if s.request_reschedule
      then merge_task_schedule_params e.schedule_params s.reschedule_params
      else e.schedule_params;
}

unfoldable pub task_state : ExecutionStatus → TaskExecution → ExecutionState → Action (Unit {0})
task_state running e s = on_running e s
task_state failed_retryable e s = do retried ← try (update_retry_state e s); give_up e s retried
task_state failed_rescheduled e s = record_state (with_reschedule e s) s
task_state success e s = send_completed_event s e
task_state failed e s = send_completed_event s e
task_state cancelled e s = send_completed_event s e
task_state _ e s = fail invalid_execution_status

-- `updatePreviewState`
unfoldable pub update_preview_state :
    ExecutionStatus → TaskExecution → ExecutionState → Action (Unit {0})
update_preview_state running e s = on_running e s
update_preview_state success e s = record_state e s
update_preview_state failed e s = record_state e s
update_preview_state cancelled e s = record_state e s
update_preview_state failed_retryable e s = record_state e (as_failed s)
update_preview_state failed_rescheduled e s = record_state e (as_failed s)
update_preview_state _ e s = fail invalid_execution_status

-- `updateWorkflowState`
unfoldable pub update_workflow_state :
    ExecutionStatus → TaskExecution → ExecutionState → Action (Unit {0})
update_workflow_state running e s = on_running e s
update_workflow_state success e s = send_completed_event s e
update_workflow_state failed e s = send_completed_event s e
update_workflow_state cancelled e s = send_completed_event s e
update_workflow_state failed_retryable e s = send_completed_event (as_failed s) e
update_workflow_state failed_rescheduled e s = send_completed_event (as_failed s) e
update_workflow_state _ e s = fail invalid_execution_status

abbrev pub by_source : ExecutionSource → TaskExecution → ExecutionState → Action (Unit {0})
by_source source_codebook_preview e s = update_preview_state s.status e s
by_source source_workflow e s = update_workflow_state s.status e s
by_source source_task e s = task_state s.status e s

-- What `UpdateState` does with the record that it read. Others may have changed the row since.
unfoldable pub apply_state : TaskExecution → ExecutionState → Action (Unit {0})
apply_state e s = if is_terminal_status e.status then pure tt else by_source e.source e s

unfoldable pub or_not_found : ExecutionState → Result TaskExecution → Action (Unit {0})
or_not_found s (ok e) = apply_state e s
or_not_found s (err _) = fail execution_not_found

-- `UpdateState`
unfoldable pub update_state : ExecutionState → Action (Unit {0})
update_state s = do found ← try (get_by_id s.id); or_not_found s found
