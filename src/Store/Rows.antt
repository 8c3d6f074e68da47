-- ===== src/Store/Rows.antt =====
-- The tables, the messages that leave the process, and the world that holds them.
use etask.Base.{ℕ, String, Bool, List, Option, ℤ}
use etask.Domain.Status.{ExecutionStatus, ExecutionSource}
use etask.Domain.Execution.{TaskExecution, Params}
use etask.Domain.Task.{Task, TaskStatus}
use etask.Store.Library.{Library}
use etask.Store.Pools.{PoolTables}
use etask.Domain.Cancellation.{ExecutionCancellation}

-- event.Event, the completion message
pub record CompleteEvent : Type 0 where
  pub exec_id : ℕ
  pub schedule_node_id : String
  pub exec_node_id : String
  pub exec_status : ExecutionStatus
  pub task_id : ℕ
  pub task_result : String
  pub source : ExecutionSource
  pub request_id : Option String

-- What leaves the process and is not read back.
pub data Output : Type 0 where
  completed : CompleteEvent → Output
  execution_changed : ℕ → Output
  task_changed : ℕ → TaskStatus → ℕ → ℕ → Output
  notified : ℕ → ExecutionStatus → Output
  invoked : ℕ → Output
  terminated : ℕ → String → Output

pub record World : Type 0 where
  pub now : ℕ
  pub faults : List Bool
  -- What the machine makes of a float64 power of two that no int64 holds.
  pub out_of_range : ℕ → ℤ
  -- robfig/cron under the holiday filter: the expression, whether holidays are skipped, and the time
  -- after which to look; `none` for a bad expression, 0 where it never triggers again.
  pub cron_next : String → Bool → ℕ → Option ℕ
  -- fmt.Sprintf("etask:%s:%d", source, id)
  pub request_text : ExecutionSource → ℕ → String
  -- the tenant of the context, which new rows get
  pub tenant : ℕ
  -- the tenant scope of the ORM: a context's tenant, and the tenant of a row that it may see
  pub scope_of : ℕ → ℕ → Bool
  pub next_execution_id : ℕ
  pub executions : List TaskExecution
  pub next_cancellation_id : ℕ
  pub cancellations : List ExecutionCancellation
  pub next_task_id : ℕ
  pub tasks : List Task
  -- task_run_param_overrides: the parameters that the next start of a task consumes
  pub run_overrides : List (ℕ × Params)
  -- the tables of internal/repository/dao/codebook.go
  pub library : Library
  -- the tables of internal/repository/dao/execution_pool.go
  pub pool_tables : PoolTables
  pub outputs : List Output
