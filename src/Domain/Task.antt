-- ===== src/Domain/Task.antt =====
-- internal/domain/task.go, internal/repository/dao/task.go: a task and its row.
use etask.Base.{ℕ, String, Bool, true, false, List, Option, ℤ}
use etask.Domain.Status.{ExecutionStatus}
use etask.Domain.Route.{ExecMode}
use etask.Domain.Execution.{Params, TaskType, one_time, recurring, RetryConfig, GrpcConfig}

pub data TaskStatus : Type 0 where
  active preempted inactive completed : TaskStatus

-- The rest of a task's configuration does not change how it is scheduled, and is left out.
pub record Task : Type 0 where
  pub id : ℕ
  pub tenant_id : ℕ
  pub name : String
  pub task_type : TaskType
  pub cron_expr : String
  pub skip_holiday : Bool
  pub grpc_config : Option GrpcConfig
  pub has_http_config : Bool
  pub retry_config : Option RetryConfig
  pub max_execution_seconds : ℤ
  pub schedule_node_id : Option String
  pub schedule_params : Option Params
  pub next_time : ℕ
  pub status : TaskStatus
  pub version : ℕ
  pub utime : ℕ
  pub exec_mode : ExecMode
  -- the terminal statuses for which an enabled notification rule stands
  pub notify_on : List ExecutionStatus
  pub business_notification : Bool

abbrev pub is_active : TaskStatus → Bool
is_active active = true
is_active _ = false

abbrev pub is_preempted : TaskStatus → Bool
is_preempted preempted = true
is_preempted _ = false

abbrev pub is_inactive : TaskStatus → Bool
is_inactive inactive = true
is_inactive _ = false

abbrev pub is_completed : TaskStatus → Bool
is_completed completed = true
is_completed _ = false

abbrev pub is_one_time : TaskType → Bool
is_one_time one_time = true
is_one_time recurring = false
