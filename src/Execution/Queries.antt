-- ===== src/Execution/Queries.antt =====
-- internal/repository/dao/task_execution.go: the scans of the compensators, and the claim of a
-- pulled execution.
use etask.Base.{
  ℕ, ◌+◌, String, Bool, true, false, ◌&&◌, ◌||◌, List, [], ◌∷◌, map, Option, none, some, pos, leb_ℤ,
  leb, ◌==◌, str_eq, if◌then◌else◌, take, keep_where, any_where, sort_by, head?,
}
use etask.Errs.{err, execution_not_found}
use etask.Domain.Status.{
  waiting_pull, prepare, running, failed_retryable, failed_rescheduled, same_status, status_in,
  non_terminal_statuses,
}
use etask.Domain.Execution.{TaskExecution, GrpcConfig}
use etask.Store.{World}
use etask.Store.Action.{Action, pure, fail, throw, gets, transaction, ◌>>=◌, ◌>>◌}
use etask.Execution.Table.{has_id, select_executions, update_executions, found_or, deadline_from}

abbrev pub is_of_task : ℕ → TaskExecution → Bool
is_of_task i e = e.task_id == i && status_in non_terminal_statuses e.status

-- the rows of it that the tenant of the context sees
abbrev pub is_open_of_task : ℕ → World → TaskExecution → Bool
is_open_of_task i w e = w.scope_of w.tenant e.tenant_id && is_of_task i e

-- `HasNonTerminalByTaskID`
unfoldable pub has_non_terminal_by_task_id : ℕ → Action Bool
has_non_terminal_by_task_id i =
    select_executions (λ w. any_where (is_open_of_task i w) w.executions)

-- `FindNonTerminalByTaskID`
unfoldable pub find_non_terminal_by_task_id : ℕ → Action (List TaskExecution)
find_non_terminal_by_task_id i =
    select_executions (λ w. keep_where (is_open_of_task i w) w.executions)

abbrev pub is_retryable : ℕ → TaskExecution → Bool
is_retryable now e = same_status e.status failed_retryable && leb e.next_retry_time now

-- `FindRetryableExecutions`
unfoldable pub find_retryable_executions : ℕ → Action (List TaskExecution)
find_retryable_executions limit = select_executions (λ w.
    take limit (sort_by (λ e. e.next_retry_time) (keep_where (is_retryable w.now) w.executions)))

abbrev pub is_reschedulable : TaskExecution → Bool
is_reschedulable e = same_status e.status failed_rescheduled

-- `FindReschedulableExecutions`
unfoldable pub find_reschedulable_executions : ℕ → Action (List TaskExecution)
find_reschedulable_executions limit =
    select_executions
      (λ w. take limit (sort_by (λ e. e.utime) (keep_where is_reschedulable w.executions)))

-- two minutes
abbrev pub default_prepare_timeout_ms : ℕ
default_prepare_timeout_ms = 120000

-- `utime <= now - timeout`, which may be negative
abbrev pub is_timed_out : ℕ → TaskExecution → Bool
is_timed_out now e =
    (same_status e.status running && leb_ℤ e.deadline (pos now))
    || (same_status e.status prepare && leb (e.utime + default_prepare_timeout_ms) now)

-- `FindTimeoutExecutions`
unfoldable pub find_timeout_executions : ℕ → Action (List TaskExecution)
find_timeout_executions limit =
    select_executions
      (λ w. take limit (sort_by (λ e. e.utime) (keep_where (is_timed_out w.now) w.executions)))

abbrev pub names_handler : String → List String → Option GrpcConfig → Bool
names_handler service handlers none = false
names_handler service handlers (some c) =
    str_eq c.service_name service && any_where (str_eq c.handler_name) handlers

abbrev pub can_pull : String → List String → TaskExecution → Bool
can_pull service handlers e =
    same_status e.status waiting_pull && names_handler service handlers e.grpc_config

-- The first phase: at most five ids, read before the transaction and without a lock.
unfoldable pub pull_candidates : String → List String → Action (List ℕ)
pull_candidates service handlers = select_executions (λ w.
    map (λ (e : TaskExecution). e.id)
      (take 5
        (sort_by (λ e. e.snapshot.ctime) (keep_where (can_pull service handlers) w.executions))))

abbrev pub still_waits : List ℕ → TaskExecution → Bool
still_waits ids e = any_where (λ i. e.id == i) ids && same_status e.status waiting_pull

abbrev pub claimed_by : ℕ → String → TaskExecution → TaskExecution → TaskExecution
claimed_by now node chosen e = record e {
  status = running;
  executor_node_id = node;
  stime = now;
  deadline = deadline_from now chosen;
  utime = now;
}

-- The second phase, in one transaction: the row is read under its lock, and written by its id.
unfoldable pub claim_locked : List ℕ → ℕ → String → Action TaskExecution
claim_locked ids now node = transaction (do
  found ←
      select_executions
        (λ w. head? (sort_by (λ e. e.snapshot.ctime) (keep_where (still_waits ids) w.executions)))
  chosen ← throw (found_or (err execution_not_found) found)
  update_executions (has_id chosen.id) (claimed_by now node chosen)
  pure (claimed_by now node chosen chosen))

abbrev pub is_nil {ℓ} : {A : Type ℓ} → List A → Bool
is_nil [] = true
is_nil (_ ∷ _) = false

-- `ClaimPullTask`
unfoldable pub claim_pull_task : String → String → List String → Action TaskExecution
claim_pull_task service node handlers = if is_nil handlers then fail execution_not_found else do
  now ← gets (λ w. w.now)
  ids ← pull_candidates service handlers
  if is_nil ids then fail execution_not_found else claim_locked ids now node
