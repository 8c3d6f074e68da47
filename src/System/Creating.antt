-- ===== src/System/Creating.antt =====
-- Creating executions (internal/service/task/execution_service.go) keeps the tables evolving.
use etask.Base.{ℕ, String, Option, none, some}
use etask.Errs.{Err, Result, ok, err}
use etask.Domain.Status.{ExecutionStatus, ExecutionSource}
use etask.Domain.Route.{ExecutionRoute}
use etask.Domain.Execution.{TaskExecution}
use etask.Domain.Task.{Task}
use etask.Store.Obeys.{Obeys}
use etask.Execution.Diagram.Steps.{Evolves}
use etask.Execution.Diagram.Statements.{evolves_rules}
use etask.Execution.Table.{find_by_request_id}
use etask.Execution.Diagram.Claims.{create-Evolves, create_and_consume_override-Evolves}
use etask.Task.Lock.Statements.{task_rules, get_task-Evolves}
use etask.Dispatch.Routing.{Services}
use etask.Dispatch.Creation.{
  create_record, pending_overrides, build_snapshot, create_execution, prepare_detached,
  create_detached, create_preview, or_winner, new_or_winner, existing_or_new, create_workflow,
}

pub create_record-Evolves : (e : TaskExecution) → Obeys Evolves (create_record e)
unfolding create_record
create_record-Evolves e =
    search (task_rules, create-Evolves, create_and_consume_override-Evolves) depth 9

pending_overrides-Evolves : (i : ℕ) → Obeys Evolves (pending_overrides i)
unfolding pending_overrides
pending_overrides-Evolves i = search task_rules

build_snapshot-Evolves : (s : Services) (t : Task) → Obeys Evolves (build_snapshot s t)
unfolding build_snapshot
build_snapshot-Evolves s t = search (task_rules, get_task-Evolves) depth 10

pub create_execution-Evolves :
    (s : Services) (t : Task) (r : ExecutionRoute) (status : ExecutionStatus)
    → Obeys Evolves (create_execution s t r status)
unfolding create_execution
create_execution-Evolves s t r status =
    search (task_rules, build_snapshot-Evolves, pending_overrides-Evolves, create_record-Evolves)
      depth 12

prepare_detached-Evolves :
    (permitted : Result (Unit {0})) (source : ExecutionSource) (e : TaskExecution)
    → Obeys Evolves (prepare_detached permitted source e)
unfolding prepare_detached
prepare_detached-Evolves permitted source e = search task_rules depth 10

create_detached-Evolves :
    (permitted : Result (Unit {0})) (source : ExecutionSource) (e : TaskExecution)
    → Obeys Evolves (create_detached permitted source e)
unfolding create_detached
create_detached-Evolves permitted source e =
    search (task_rules, prepare_detached-Evolves, create_record-Evolves)

pub create_preview-Evolves :
    (permitted : Result (Unit {0})) (e : TaskExecution) → Obeys Evolves (create_preview permitted e)
unfolding create_preview
create_preview-Evolves permitted e = search (task_rules, create_detached-Evolves) depth 8

find_by_request_id-Evolves :
    (source : ExecutionSource) (request : String)
    → Obeys Evolves (find_by_request_id source request)
unfolding find_by_request_id
find_by_request_id-Evolves source request = search evolves_rules

or_winner-Evolves : (x : Err) (r : Result (Option TaskExecution)) → Obeys Evolves (or_winner x r)
unfolding or_winner
or_winner-Evolves x (ok (some e)) = search task_rules
or_winner-Evolves x (ok none) = search task_rules
or_winner-Evolves x (err _) = search task_rules

new_or_winner-Evolves :
    (request : String) (r : Result TaskExecution) → Obeys Evolves (new_or_winner request r)
unfolding new_or_winner
new_or_winner-Evolves request (ok e) = search task_rules
new_or_winner-Evolves request (err x) =
    search (task_rules, find_by_request_id-Evolves, or_winner-Evolves) depth 8

existing_or_new-Evolves :
    (permitted : Result (Unit {0})) (e : TaskExecution) (request : String)
    (found : Option TaskExecution)
    → Obeys Evolves (existing_or_new permitted e request found)
unfolding existing_or_new
existing_or_new-Evolves permitted e request (some found) = search task_rules
existing_or_new-Evolves permitted e request none =
    search (task_rules, prepare_detached-Evolves, create_record-Evolves, new_or_winner-Evolves)
      depth 9

pub create_workflow-Evolves :
    (permitted : Result (Unit {0})) (e : TaskExecution)
    → Obeys Evolves (create_workflow permitted e)
unfolding create_workflow
create_workflow-Evolves permitted e =
    search (task_rules, find_by_request_id-Evolves, existing_or_new-Evolves) depth 9
