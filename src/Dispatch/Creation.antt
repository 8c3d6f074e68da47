-- ===== src/Dispatch/Creation.antt =====
-- internal/service/task/execution_service.go and internal/repository/task_execution.go: creating an
-- execution from the stored task, and the executions that belong to no task.
use etask.Base.{
  ℕ, String, Bool, true, false, not, ◌&&◌, List, [], ◌∷◌, Option, none, some, pos, ◌==◌,
  if◌then◌else◌, trim_space,
}
use etask.Errs.{Err, Result, ok, err, invalid_task_id, missing_request_id, missing_tenant}
use etask.Domain.Status.{
  ExecutionStatus, ExecutionSource, source_task, source_codebook_preview, source_workflow,
  allows_empty_task_id,
}
use etask.Domain.Route.{ExecutionRoute, validate_route, is_empty}
use etask.Domain.Execution.{TaskExecution, Params, one_time, merge_params}
use etask.Domain.Task.{Task}
use etask.Store.{execution_changed}
use etask.Store.Action.{Action, pure, fail, throw, try, gets, emit, statement, ◌>>=◌, ◌>>◌}
use etask.Execution.Table.{create, create_and_consume_override, find_by_request_id}
use etask.Task.Table.{get_task}
use etask.Dispatch.Routing.{Services}

abbrev pub is_source_task : ExecutionSource → Bool
is_source_task source_task = true
is_source_task _ = false

abbrev pub any_param : Params → Bool
any_param [] = false
any_param (_ ∷ _) = true

-- `Create` of the repository
unfoldable pub create_record : TaskExecution → Action TaskExecution
create_record e = do
  throw (validate_route e.route)
  if (e.task_id == 0) && not (allows_empty_task_id e.source)
      then fail invalid_task_id
      else if is_source_task e.source && any_param e.param_overrides
      then create_and_consume_override e e.task_id
      else create e

-- The key of the pending overrides is the task, so there is at most one.
abbrev pub overrides_in : ℕ → List (ℕ × Params) → Params
overrides_in i [] = []
overrides_in i ((j, m) ∷ os) = if i == j then m else overrides_in i os

unfoldable pub pending_overrides : ℕ → Action Params
pending_overrides i = statement (gets (λ w. overrides_in i w.run_overrides))

-- `UpdateScheduleParams`: nil changes nothing, an empty map clears, another one is merged.
unfoldable pub updated_params : Option Params → Option Params → Option Params
updated_params old none = old
updated_params old (some []) = some []
updated_params none (some (p ∷ ps)) = some (merge_params [] (p ∷ ps))
updated_params (some m) (some (p ∷ ps)) = some (merge_params m (p ∷ ps))

abbrev pub node_or_empty : Option String → String
node_or_empty none = ""
node_or_empty (some n) = n

abbrev pub execution_of : Task → ExecutionRoute → Params → ExecutionStatus → ℕ → TaskExecution
execution_of t r pending status now = record {
  snapshot = record {
    id = 0;
    tenant_id = t.tenant_id;
    source = source_task;
    request_id = none;
    task_id = t.id;
    task_name = t.name;
    task_type = t.task_type;
    retry_config = t.retry_config;
    grpc_config = t.grpc_config;
    max_execution_seconds = t.max_execution_seconds;
    schedule_node_id = node_or_empty t.schedule_node_id;
    param_overrides = pending;
    route = r;
    ctime = 0;
  };
  schedule_params = t.schedule_params;
  executor_node_id = "";
  deadline = pos 0;
  stime = now;
  etime = 0;
  retry_count = 0;
  next_retry_time = 0;
  running_progress = pos 0;
  status = status;
  task_result = "";
  utime = 0;
}

-- `buildTaskSnapshot`: the task is read again, and only its schedule parameters come from outside.
unfoldable pub build_snapshot : Services → Task → Action Task
build_snapshot s t = do
  persisted ← get_task t.id
  let snapshot = record persisted {
    schedule_params = updated_params persisted.schedule_params t.schedule_params;
  } in
      do throw (s.authorize snapshot); throw (s.resolve snapshot); throw (s.assemble snapshot)

-- `Create`
unfoldable pub create_execution :
    Services → Task → ExecutionRoute → ExecutionStatus → Action TaskExecution
create_execution s t r status = do
  throw (validate_route r)
  snapshot ← build_snapshot s t
  pending ← pending_overrides t.id
  now ← gets (λ w. w.now)
  created ← create_record (execution_of snapshot r pending status now)
  emit (execution_changed created.id)
  pure created

abbrev pub detached : ExecutionSource → ℕ → TaskExecution → TaskExecution
detached source tenant e = record e {
  snapshot = record e.snapshot {
    source = source;
    task_id = 0;
    task_type = one_time;
    tenant_id = tenant;
  };
}

-- `prepareDetachedExecution`; `permitted` is what the pool, the program and the artifacts answer.
unfoldable pub prepare_detached :
    Result (Unit {0}) → ExecutionSource → TaskExecution → Action TaskExecution
prepare_detached permitted source e = do
  throw (validate_route e.route)
  tenant ← gets (λ w. w.tenant)
  if tenant == 0 then fail missing_tenant else do throw permitted; pure (detached source tenant e)

unfoldable pub create_detached :
    Result (Unit {0}) → ExecutionSource → TaskExecution → Action TaskExecution
create_detached permitted source e = do
  prepared ← prepare_detached permitted source e
  create_record prepared

-- `CreatePreview`
unfoldable pub create_preview : Result (Unit {0}) → TaskExecution → Action TaskExecution
create_preview permitted e = do
  created ← create_detached permitted source_codebook_preview e
  emit (execution_changed created.id)
  pure created

abbrev pub text_or_empty : Option String → String
text_or_empty none = ""
text_or_empty (some s) = s

-- Another submission may have won the race to the unique index: its record is the answer.
unfoldable pub or_winner : Err → Result (Option TaskExecution) → Action (TaskExecution × Bool)
or_winner x (ok (some e)) = pure (e, false)
or_winner x (ok none) = fail x
or_winner x (err _) = fail x

unfoldable pub new_or_winner : String → Result TaskExecution → Action (TaskExecution × Bool)
new_or_winner request (ok e) = do emit (execution_changed e.id); pure (e, true)
new_or_winner request (err x) = do
  existing ← try (find_by_request_id source_workflow request)
  or_winner x existing

unfoldable pub existing_or_new :
    Result (Unit {0})
    → TaskExecution
    → String
    → Option TaskExecution
    → Action (TaskExecution × Bool)
existing_or_new permitted e request (some found) = pure (found, false)
existing_or_new permitted e request none = do
  prepared ← prepare_detached permitted source_workflow e
  created ← try (create_record prepared)
  new_or_winner request created

-- `CreateWorkflow`: the record, and whether it is new.
unfoldable pub create_workflow : Result (Unit {0}) → TaskExecution → Action (TaskExecution × Bool)
create_workflow permitted e =
    let request = text_or_empty e.request_id in
    if is_empty (trim_space request) then fail missing_request_id else do
      existing ← find_by_request_id source_workflow request
      existing_or_new permitted e request existing
