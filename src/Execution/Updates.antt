-- ===== src/Execution/Updates.antt =====
-- internal/repository/dao/task_execution.go: the conditional updates of one execution.
use etask.Base.{
  ℕ, String, Bool, true, false, not, ◌&&◌, List, [], ◌∷◌, Option, none, some, ℤ, ◌==◌,
  if◌then◌else◌,
}
use etask.Errs.{
  Err, Result, ok, err, invalid_execution_status, set_running_failed, update_progress_failed,
}
use etask.Domain.Status.{
  ExecutionStatus, prepare, running, failed_retryable, failed_rescheduled, status_in,
  is_terminal_status,
}
use etask.Domain.Route.{is_empty}
use etask.Domain.Execution.{TaskExecution, Params}
use etask.Store.Action.{Action, pure, fail, throw, try, gets, ◌>>=◌}
use etask.Execution.Table.{has_id, update_executions, find_by_id, found_or, deadline_from}

-- `withExecutionStatusCAS`: WHERE id = ? AND status IN ?
abbrev pub in_status : ℕ → List ExecutionStatus → TaskExecution → Bool
in_status i expected e = has_id i e && status_in expected e.status

abbrev pub is_none_expected : List ExecutionStatus → Bool
is_none_expected [] = true
is_none_expected (_ ∷ _) = false

-- `UpdateStatus`
unfoldable pub update_status : ℕ → List ExecutionStatus → ExecutionStatus → Action (Unit {0})
update_status i expected status =
    if is_none_expected expected then fail invalid_execution_status else do
      now ← gets (λ w. w.now)
      affected ←
          update_executions (in_status i expected) (λ e. record e { status = status; utime = now })
      if affected == 0 then fail invalid_execution_status else pure tt

-- `if scheduleParams != nil`, `if executorNodeID != ""`
abbrev pub given_params : Option Params → Option Params → Option Params
given_params none old = old
given_params (some m) old = some m

abbrev pub given_node : String → String → String
given_node node old = if is_empty node then old else node

-- What an executor reports of a run.
pub record Report : Type 0 where
  pub status : ExecutionStatus
  pub progress : ℤ
  pub end_time : ℕ
  pub schedule_params : Option Params
  pub executor_node_id : String

-- `updateRetryResultUpdates`
abbrev pub with_retry_result : ℕ → ℕ → ℕ → Report → TaskExecution → TaskExecution
with_retry_result now retry_count next_retry_time r e = record e {
  retry_count = retry_count;
  next_retry_time = next_retry_time;
  status = r.status;
  running_progress = r.progress;
  etime = r.end_time;
  utime = now;
  schedule_params = given_params r.schedule_params e.schedule_params;
  executor_node_id = given_node r.executor_node_id e.executor_node_id;
}

-- `UpdateRetryResult`; no expected status stands for the empty string.
unfoldable pub update_retry_result : ℕ → ℕ → ℕ → Option ExecutionStatus → Report → Action (Unit {0})
update_retry_result i retry_count next_retry_time none r = fail invalid_execution_status
update_retry_result i retry_count next_retry_time (some expected) r = do
  now ← gets (λ w. w.now)
  affected ←
      update_executions (in_status i (expected ∷ []))
        (with_retry_result now retry_count next_retry_time r)
  if affected == 0 then fail invalid_execution_status else pure tt

-- `updateScheduleResultUpdates`
abbrev pub with_schedule_result : ℕ → Report → String → TaskExecution → TaskExecution
with_schedule_result now r result e = record e {
  status = r.status;
  running_progress = r.progress;
  etime = r.end_time;
  task_result = result;
  utime = now;
  schedule_params = given_params r.schedule_params e.schedule_params;
  executor_node_id = given_node r.executor_node_id e.executor_node_id;
}

-- `UpdateScheduleResult`: whether the row was in one of the expected states, and is written.
unfoldable pub update_schedule_result : ℕ → List ExecutionStatus → Report → String → Action Bool
update_schedule_result i expected r result =
    if is_none_expected expected then fail invalid_execution_status else do
      now ← gets (λ w. w.now)
      affected ← update_executions (in_status i expected) (with_schedule_result now r result)
      pure (not (affected == 0))

abbrev pub with_running : ℕ → ℤ → ℤ → String → TaskExecution → TaskExecution
with_running now new_deadline progress node e = record e {
  status = running;
  running_progress = progress;
  stime = now;
  deadline = new_deadline;
  utime = now;
  executor_node_id = given_node node e.executor_node_id;
}

-- A write that met no row is no error if the row has reached a terminal state meanwhile.
unfoldable pub excuse_terminal : Err → Result (Option TaskExecution) → Action (Unit {0})
excuse_terminal x (ok (some e)) = if is_terminal_status e.status then pure tt else fail x
excuse_terminal x (ok none) = fail x
excuse_terminal x (err _) = fail x

abbrev pub may_start : List ExecutionStatus
may_start = prepare ∷ failed_retryable ∷ failed_rescheduled ∷ []

unfoldable pub start_running : ℕ → ℤ → String → TaskExecution → Action (Unit {0})
start_running i progress node e = if is_terminal_status e.status then pure tt else do
  now ← gets (λ w. w.now)
  affected ←
      update_executions (in_status i may_start)
        (with_running now (deadline_from now e) progress node)
  if affected == 0
      then (do current ← try (find_by_id i); excuse_terminal set_running_failed current)
      else pure tt

-- `SetRunningState`
unfoldable pub set_running_state : ℕ → ℤ → String → Action (Unit {0})
set_running_state i progress node = do
  found ← find_by_id i
  e ← throw (found_or (err set_running_failed) found)
  start_running i progress node e

abbrev pub with_progress : ℕ → ℤ → String → TaskExecution → TaskExecution
with_progress now progress node e = record e {
  running_progress = progress;
  utime = now;
  executor_node_id = given_node node e.executor_node_id;
}

-- `UpdateProgress`
unfoldable pub update_progress : ℕ → ℤ → String → Action (Unit {0})
update_progress i progress node = do
  now ← gets (λ w. w.now)
  affected ← update_executions (in_status i (running ∷ [])) (with_progress now progress node)
  if affected == 0
      then (do current ← try (find_by_id i); excuse_terminal update_progress_failed current)
      else pure tt
