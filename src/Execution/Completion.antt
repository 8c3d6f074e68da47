-- ===== src/Execution/Completion.antt =====
-- internal/event/complete/consumer.go: the completion consumer, which alone writes the terminal
-- state of a task's execution, moves the task on to its next time and gives its lease back.
use etask.Base.{ℕ, Bool, true, false, not, ◌&&◌, ◌||◌, none, ℤ, pos, ◌==◌, if◌then◌else◌}
use etask.Errs.{Result, ok, err, invalid_execution_status}
use etask.Domain.Status.{
  ExecutionStatus, success, failed, failed_retryable, failed_rescheduled, cancelled,
  non_terminal_statuses, status_in, is_success,
}
use etask.Domain.Execution.{TaskExecution}
use etask.Domain.Task.{Task, is_preempted}
use etask.Store.{World, CompleteEvent, notified}
use etask.Store.Action.{Action, pure, throw, try, gets, emit, statement, ◌>>=◌, ◌>>◌}
use etask.Execution.Table.{get_by_id}
use etask.Execution.Updates.{Report}
use etask.Execution.Service.{schedule_result}
use etask.Task.Table.{get_task}
use etask.Task.Service.{update_next_time, release_task, announce}

-- `completionState`
unfoldable pub completion_state : ExecutionStatus → Result (ExecutionStatus × ℤ)
completion_state success = ok (success, pos 100)
completion_state cancelled = ok (cancelled, pos 0)
completion_state failed = ok (failed, pos 0)
completion_state failed_retryable = ok (failed, pos 0)
completion_state failed_rescheduled = ok (failed, pos 0)
completion_state _ = err invalid_execution_status

unfoldable pub notice_for : ℕ → ExecutionStatus → Result TaskExecution → Action (Unit {0})
notice_for i status (ok e) = do try (statement (emit (notified i status))); pure tt
notice_for i status (err _) = pure tt

-- A notice goes out if the record can still be read; what fails here is only logged.
unfoldable pub send_notice : ℕ → ExecutionStatus → Bool → Action (Unit {0})
send_notice i status false = pure tt
send_notice i status true = do found ← try (get_by_id i); notice_for i status found

-- `notifyCompletion` and, after a success, `dispatchBusinessNotifications`
unfoldable pub notify : CompleteEvent → ExecutionStatus → Result Task → Action (Unit {0})
notify ev status (err _) = pure tt
notify ev status (ok t) = do
  send_notice ev.exec_id status (status_in t.notify_on status)
  send_notice ev.exec_id status (is_success status && t.business_notification)

unfoldable pub settle_task : CompleteEvent → Task → Action (Unit {0})
settle_task ev t =
    if is_preempted t.status then release_task ev.task_id ev.schedule_node_id else announce t

-- after the state of the execution has been won
unfoldable pub move_on : (ℕ → World → World) → CompleteEvent → ExecutionStatus → Action (Unit {0})
move_on others ev status = do
  current ← try (get_task ev.task_id)
  notify ev status current
  t ← update_next_time others ev.task_id
  settle_task ev t

abbrev pub final_report : ℕ → CompleteEvent → ExecutionStatus × ℤ → Report
final_report now ev (status, progress) = record {
  status = status;
  progress = progress;
  end_time = now;
  schedule_params = none;
  executor_node_id = ev.exec_node_id;
}

unfoldable pub finish :
    (ℕ → World → World) → CompleteEvent → ExecutionStatus × ℤ → Action (Unit {0})
finish others ev final = do
  now ← gets (λ w. w.now)
  updated ←
      schedule_result ev.exec_id non_terminal_statuses (final_report now ev final) ev.task_result
  if not updated || ev.task_id == 0 then pure tt else move_on others ev final.0

-- `handleTask`
unfoldable pub handle_task : (ℕ → World → World) → CompleteEvent → Action (Unit {0})
handle_task others ev = do final ← throw (completion_state ev.exec_status); finish others ev final
