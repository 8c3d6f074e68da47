-- ===== src/Examples/Writes.antt =====
-- Examples of who gets a task or an execution, and of what happens once.
use etask.Base.{◌≡◌, ◌≢◌, refl, inl, inr, Member, List, Bool, true}
use etask.Errs.{ok}
use etask.Domain.Status.{
  cancelled, failed_retryable, failed_rescheduled, is_terminal_status, is_valid_status, status_in,
}
use etask.Domain.Execution.{TaskExecution}
use etask.Domain.Task.{Task}
use etask.Store.{CompleteEvent}
use etask.Store.Action.{◌>>=◌, gets, transaction, throw, statement, emit, pure}
use etask.Execution.Table.{select_executions, found_or, update_executions}
use etask.Execution.Updates.{update_schedule_result}
use etask.Execution.Service.{schedule_result}
use etask.Task.Table.{
  acquire, acquired_by, release, write_and_read, update_tasks, get_task, select_tasks, task_or,
}
use etask.Execution.Completion.{handle_task}
use etask.Execution.Diagram.Steps.{retryable, rescheduled}
use etask.Cancellation.Requests.{
  request_cancellation, resolve_request_id, lock_or_create_cancellation, lock_cancellation,
  lock_target, bind_or_wait, bind_cancellation, cancel_execution, release_on_cancellation,
  schedule_delivery, update_cancellations,
}
use etask.Dispatch.Dispatcher.{claim_for_dispatch, dispatch}
use etask.System.Runs.{begins}
use etask.System.Leasing.{acquire-once}
use etask.Execution.Completion.{
  finish, move_on, notify, settle_task, send_notice, notice_for, completion_state,
}
use etask.Execution.Table.{get_by_id, find_by_id}
use etask.Domain.Status.{same_status}
use etask.Store.Action.{try, fail}
use etask.Task.Table.{write_next_time}
use etask.Task.Service.{
  update_next_time, update_next_time_loop, try_next_time, move_to_next, write_timed, interlude,
  set_next_time, calculate_next_time, release_task,
}
use etask.System.Ending.{handle_task-ends}
use etask.System.Once.{handle_task-repeated}
use etask.System.Claiming.{claim-once, dispatch-running}
use etask.System.Cancelled.{request_cancellation-ends}
use etask.Examples.Sample.{
  running_execution, idle, idle-IsSound, busy, busy-IsSound, waiting_task, held_task,
  ended_execution, failing_execution, repeated_event, some_services,
}

abbrev taken : Task
taken = acquired_by "a" 1000 waiting_task

abbrev first_event : CompleteEvent
first_event = record repeated_event { exec_id = 1 }

handled : (handle_task (λ k w. w) first_event busy).0 ≡ ok tt
unfolding handle_task finish move_on notify settle_task send_notice notice_for completion_state
    schedule_result update_schedule_result update_executions status_in same_status get_by_id
    find_by_id found_or select_executions get_task select_tasks task_or update_next_time
    update_next_time_loop try_next_time move_to_next write_timed interlude set_next_time
    calculate_next_time write_next_time write_and_read update_tasks release_task release transaction
    statement throw try gets emit pure fail ◌>>=◌
handled = refl

taken_first : (acquire 7 3 "a" idle).0 ≡ ok taken
unfolding acquire ◌>>=◌ gets write_and_read transaction update_tasks get_task select_tasks throw
    task_or
taken_first = refl

claimed_first : (claim_for_dispatch failing_execution failed_retryable busy).0 ≡ ok true
unfolding claim_for_dispatch schedule_result ◌>>=◌ update_schedule_result gets update_executions
    statement status_in emit
claimed_first = refl

accepted : (request_cancellation 1 "" "stop" busy).0 ≡ ok tt
unfolding request_cancellation transaction resolve_request_id select_executions gets throw found_or
    lock_or_create_cancellation lock_cancellation lock_target bind_or_wait bind_cancellation
    is_valid_status is_terminal_status cancel_execution release_on_cancellation schedule_delivery
    update_executions update_tasks update_cancellations status_in ◌>>=◌ pure statement
accepted = refl

acquire-once_example : (acquire 7 3 "b" (acquire 7 3 "a" idle).1).0 ≢ ok taken
acquire-once_example =
    acquire-once 7 3 "a" "b" idle (acquire 7 3 "a" idle).1 taken taken idle-IsSound taken_first
      begins

handle_task-repeated_example :
    (rest : List Bool) × ((handle_task (λ k w. w) repeated_event busy).1
      ≡ record busy { faults = rest })
unfolding is_terminal_status
handle_task-repeated_example =
    handle_task-repeated (λ k w. w) repeated_event busy ended_execution busy-IsSound
      (inr (inl refl)) refl refl

handle_task-ends_example :
    (x : TaskExecution) × Member x (handle_task (λ k w. w) first_event busy).1.executions
    × (x.id ≡ 1)
    × (is_terminal_status x.status ≡ true)
unfolding is_valid_status
handle_task-ends_example =
    handle_task-ends (λ k w. w) (λ k x. begins) first_event busy running_execution busy-IsSound
      (inl refl) refl refl handled

claim-once_example :
    (claim_for_dispatch failing_execution failed_rescheduled
      (claim_for_dispatch failing_execution failed_retryable busy).1).0
    ≢ ok true
claim-once_example =
    claim-once failing_execution failing_execution failed_retryable failed_rescheduled busy
      busy-IsSound retryable rescheduled refl claimed_first

dispatch-running_example :
    (rest : List Bool) × ((dispatch some_services "n2" held_task busy).1
      ≡ record busy { faults = rest })
unfolding is_valid_status is_terminal_status
dispatch-running_example =
    dispatch-running some_services "n2" held_task busy running_execution refl (inl refl) refl refl
      refl refl

request_cancellation-ends_example :
    (x : TaskExecution) × Member x (request_cancellation 1 "" "stop" busy).1.executions
    × (x.id ≡ 1)
    × (x.status ≡ cancelled)
request_cancellation-ends_example = request_cancellation-ends 1 refl "" "stop" busy accepted
