-- ===== src/Examples/Sample.antt =====
-- The data of the examples.
use etask.Base.{
  ℕ, suc, String, true, false, [], ◌∷◌, Option, none, some, pos, ◌||◌, ◌==◌, str_eq, arith,
}
use etask.Errs.{ok}
use etask.Domain.Status.{ExecutionStatus, running, success, failed, failed_retryable, source_task}
use etask.Domain.Route.{push, grpc, ExecutionRoute}
use etask.Domain.Execution.{TaskExecution, ExecutionState, recurring, GrpcConfig}
use etask.Domain.Task.{Task, TaskStatus, active, preempted}
use etask.Domain.Pool.{ExecutionPool, ExecutionPoolIsolation, shared, executor, pool_enabled}
use etask.Domain.Codebook.{system_scope}
use etask.Domain.Codebook.Checks.{same_scope}
use etask.Store.Library.{Library}
use etask.Store.Pools.{PoolTables}
use etask.Store.{World, CompleteEvent}
use etask.Dispatch.Routing.{Services}
use etask.System.Safety.{IsSound}

abbrev pub a_route : ExecutionRoute
a_route = record {
  transport = grpc;
  dispatch_mode = push;
  pool_name = "pool";
  target_node_id = "worker";
  topic = "";
}

abbrev pub a_config : GrpcConfig
a_config = record { service_name = "pool"; handler_name = "job"; params = some (("a", "1") ∷ []) }

abbrev pub an_execution : ℕ → ExecutionStatus → TaskExecution
an_execution i status = record {
  snapshot = record {
    id = i;
    tenant_id = 1;
    source = source_task;
    request_id = none;
    task_id = 7;
    task_name = "report";
    task_type = recurring;
    retry_config = none;
    grpc_config = some a_config;
    max_execution_seconds = pos 60;
    schedule_node_id = "n1";
    param_overrides = [];
    route = a_route;
    ctime = 100;
  };
  schedule_params = some (("a", "2") ∷ []);
  executor_node_id = "worker";
  deadline = pos 90000;
  stime = 100;
  etime = 0;
  retry_count = 0;
  next_retry_time = 0;
  running_progress = pos 0;
  status = status;
  task_result = "";
  utime = 100;
}

abbrev pub a_task : TaskStatus → Option String → Task
a_task status node = record {
  id = 7;
  tenant_id = 1;
  name = "report";
  task_type = recurring;
  cron_expr = "0 0 * * *";
  skip_holiday = false;
  grpc_config = some a_config;
  has_http_config = false;
  retry_config = none;
  max_execution_seconds = pos 60;
  schedule_node_id = node;
  schedule_params = none;
  next_time = 900;
  status = status;
  version = 3;
  utime = 100;
  exec_mode = push;
  notify_on = [];
  business_notification = false;
}

abbrev pub waiting_task : Task
waiting_task = a_task active none

abbrev pub held_task : Task
held_task = a_task preempted (some "n1")

abbrev pub running_execution : TaskExecution
running_execution = an_execution 1 running

abbrev pub ended_execution : TaskExecution
ended_execution = an_execution 2 success

abbrev pub failing_execution : TaskExecution
failing_execution = an_execution 3 failed_retryable

abbrev pub no_code : Library
no_code = record {
  system_tenant = 1;
  user = 5;
  may_read = λ t row s. t == row || same_scope s system_scope;
  may_write = λ t row s. t == row;
  same_name = str_eq;
  name_before = λ a b. true;
  hash_code = λ s. s;
  uuid = λ n. "uuid";
  next_uuid = 0;
  next_node_id = 1;
  nodes = [];
  next_code_version_id = 1;
  code_versions = [];
  next_project_id = 1;
  projects = [];
}

abbrev pub a_pool : String → ExecutionPoolIsolation → ExecutionPool
a_pool name isolation = record {
  id = 1;
  name = name;
  kind = executor;
  transport = grpc;
  dispatch_mode = push;
  isolation_level = isolation;
  desc = "";
  status = pool_enabled;
  topic = "";
  supported_handlers = "";
  ctime = 1;
  utime = 1;
}

abbrev pub no_pools : PoolTables
no_pools = record {
  parse_handlers = λ s. none;
  next_pool_id = 1;
  pools = [];
  next_binding_id = 1;
  bindings = [];
}

abbrev pub world_with : Task → World
world_with t = record {
  now = 1000;
  faults = [];
  out_of_range = λ n. pos 0;
  cron_next = λ expr skip now. some (suc now);
  request_text = λ source i. "etask:TASK:1";
  tenant = 1;
  scope_of = λ a b. a == b;
  next_execution_id = 4;
  executions = running_execution ∷ ended_execution ∷ failing_execution ∷ [];
  next_cancellation_id = 1;
  cancellations = [];
  next_task_id = 8;
  tasks = t ∷ [];
  run_overrides = [];
  library = no_code;
  pool_tables = no_pools;
  outputs = [];
}

abbrev pub idle : World
idle = world_with waiting_task

abbrev pub busy : World
busy = world_with held_task

pub idle-IsSound : IsSound idle
idle-IsSound = record { executions_keyed = ground arith; tasks_keyed = ground arith }

pub busy-IsSound : IsSound busy
busy-IsSound = record { executions_keyed = ground arith; tasks_keyed = ground arith }

-- A report that comes after the execution 2 has ended.
abbrev pub late_report : ExecutionState
late_report = record {
  id = 2;
  task_id = 7;
  status = failed;
  running_progress = pos 0;
  request_reschedule = false;
  reschedule_params = [];
  executor_node_id = "worker";
  task_result = "late";
}

abbrev pub repeated_event : CompleteEvent
repeated_event = record {
  exec_id = 2;
  schedule_node_id = "n1";
  exec_node_id = "worker";
  exec_status = failed;
  task_id = 7;
  task_result = "late";
  source = source_task;
  request_id = none;
}

abbrev pub some_services : Services
some_services = record {
  find_pool = λ name. ok (a_pool name shared);
  pick = λ t. ok "worker";
  authorize = λ t. ok tt;
  resolve = λ t. ok tt;
  assemble = λ t. ok t;
  slot = ok tt;
  same_program = λ t u. true;
}
