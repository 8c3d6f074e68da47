-- ===== src/Domain/Execution.antt =====
-- internal/domain/task_execution.go, internal/repository/dao/task_execution.go: an execution
-- record. `Snapshot` is what is copied from the task when the record is created, the other fields
-- are its own. The row of the table and the domain value hold the same fields here, since the
-- repository copies them one by one; the programs, artifacts and encrypted variables that a row
-- also carries are left out.
use etask.Base.{ℕ, String, Bool, List, [], ◌∷◌, Option, none, some, ℤ, str_eq, if◌then◌else◌}
use etask.Domain.Status.{ExecutionStatus, ExecutionSource}
use etask.Domain.Route.{ExecutionRoute}

-- map[string]string; a later entry for a key that is there already overwrites it.
abbrev pub Params : Type 0
Params = List (String × String)

pub record RetryConfig : Type 0 where
  pub max_retries : ℤ
  pub initial_interval : ℤ
  pub max_interval : ℤ

pub record GrpcConfig : Type 0 where
  pub service_name : String
  pub handler_name : String
  pub params : Option Params

pub data TaskType : Type 0 where
  recurring one_time : TaskType

pub record Snapshot : Type 0 where
  pub id : ℕ
  pub tenant_id : ℕ
  pub source : ExecutionSource
  pub request_id : Option String
  pub task_id : ℕ
  pub task_name : String
  pub task_type : TaskType
  pub retry_config : Option RetryConfig
  pub grpc_config : Option GrpcConfig
  pub max_execution_seconds : ℤ
  pub schedule_node_id : String
  pub param_overrides : Params
  pub route : ExecutionRoute
  pub ctime : ℕ

pub record TaskExecution : Type 0 where
  pub snapshot : Snapshot
  pub open snapshot use *
  pub schedule_params : Option Params
  pub executor_node_id : String  -- "" is SQL NULL
  pub deadline : ℤ
  pub stime : ℕ
  pub etime : ℕ
  pub retry_count : ℕ
  pub next_retry_time : ℕ
  pub running_progress : ℤ
  pub status : ExecutionStatus
  pub task_result : String
  pub utime : ℕ

-- internal/domain/report.go
pub record ExecutionState : Type 0 where
  pub id : ℕ
  pub task_id : ℕ
  pub status : ExecutionStatus
  pub running_progress : ℤ
  pub request_reschedule : Bool
  pub reschedule_params : Params
  pub executor_node_id : String
  pub task_result : String

-- m[k] = v
unfoldable pub put_param : String → String → Params → Params
put_param k v [] = (k, v) ∷ []
put_param k v ((j, w) ∷ m) = if str_eq j k then (k, v) ∷ m else (j, w) ∷ put_param k v m

unfoldable pub get_param : String → Params → Option String
get_param k [] = none
get_param k ((j, v) ∷ m) = if str_eq j k then some v else get_param k m

-- for k, v := range source { target[k] = v }
unfoldable pub merge_params : Params → Params → Params
unfolding put_param
merge_params target [] = target
merge_params target ((k, v) ∷ source) = merge_params (put_param k v target) source

abbrev pub or_empty : Option Params → Params
or_empty none = []
or_empty (some m) = m

-- `MergeTaskScheduleParams`
unfoldable pub merge_task_schedule_params : Option Params → Params → Option Params
unfolding merge_params
merge_task_schedule_params current [] = current
merge_task_schedule_params none (p ∷ ps) = some (p ∷ ps)
merge_task_schedule_params (some []) (p ∷ ps) = some (p ∷ ps)
merge_task_schedule_params (some (q ∷ qs)) (p ∷ ps) = some (merge_params (q ∷ qs) (p ∷ ps))

abbrev pub grpc_params_of : Option GrpcConfig → Params
grpc_params_of none = []
grpc_params_of (some c) = or_empty c.params

-- `GRPCParams`
unfoldable pub grpc_params : TaskExecution → Params
unfolding merge_params
grpc_params e =
    merge_params (merge_params [] (grpc_params_of e.grpc_config)) (or_empty e.schedule_params)
