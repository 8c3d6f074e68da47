-- ===== src/System/Runs.antt =====
-- The operations of the task, execution, cancellation and dispatch services and of the loops as one
-- step each, with whatever arguments the callers hold: stale snapshots, answers of other services,
-- states that executors report. Of the deletion of a project
-- (internal/repository/dao/project_deletion.go) a run sees what it does to the tasks: `rest` is
-- what its statements on other tables come to, within the same transaction. A new task brings no id of its
-- own, as those that internal/grpc/task.go makes. A run interleaves them in
-- any order, lets the clock go on, changes the tenant of the context and loses statements.
use etask.Base.{ℕ, ◌+◌, ◌≡◌, refl, String, Bool, List, Option}
use etask.Errs.{Result}
use etask.Domain.Route.{ExecMode}
use etask.Domain.Execution.{TaskExecution, ExecutionState, Params}
use etask.Domain.Task.{Task}
use etask.Store.{World, CompleteEvent}
use etask.Execution.Queries.{claim_pull_task}
use etask.Execution.Service.{update_state, apply_state, requeue_pull}
use etask.Execution.Completion.{handle_task}
use etask.Execution.Diagram.Steps.{Evolves}
use etask.Execution.Diagram.Rules.{Evolves-Evolution}
use etask.Execution.Diagram.Claims.{claim_pull_task-Evolves}
use etask.Execution.Service.Lifecycle.{
  update_state-Evolves, apply_state-Evolves, requeue_pull-Evolves,
}
use etask.Task.Table.{renew, write_schedule_params}
use etask.Task.Changes.{update_exec_mode, update_task, create_task, stop_project_tasks}
use etask.Task.Service.{
  acquire_task, release_task, update_next_time, retry_by_id, delete_stopped, stop, run,
}
use etask.Store.Action.{transaction, throw, ◌>>◌}
use etask.Store.Obeys.{Obeys}
use etask.Task.Lock.Statements.{task_rules, renew-Evolves, write_schedule_params-Evolves}
use etask.Task.Lock.Edits.{
  update_exec_mode-Evolves, update_task-Evolves, create_task-Evolves, stop_project_tasks-Evolves,
}
use etask.Cancellation.Delivery.{
  deliver_pending, request, request_execution, terminate_active_by_task_id, attach_execution,
}
use etask.Dispatch.Routing.{Services}
use etask.Dispatch.Creation.{create_preview, create_workflow}
use etask.Dispatch.Dispatcher.{dispatch, retry, reschedule, call_answered}
use etask.Dispatch.Rounds.{schedule_round, retry_round, reschedule_round, interrupt_round}
use etask.System.Leases.{
  acquire_task-Evolves, release_task-Evolves, update_next_time-Evolves, retry_by_id-Evolves,
  delete_stopped-Evolves, stop-Evolves, run-Evolves,
}
use etask.System.Cancelling.{
  deliver_pending-Evolves, request-Evolves, request_execution-Evolves,
  terminate_active_by_task_id-Evolves, attach_execution-Evolves,
}
use etask.System.Completing.{handle_task-Evolves}
use etask.System.Creating.{create_preview-Evolves, create_workflow-Evolves}
use etask.System.Dispatching.{
  dispatch-Evolves, retry-Evolves, reschedule-Evolves, call_answered-Evolves,
}
use etask.System.Looping.{
  schedule_round-Evolves, retry_round-Evolves, reschedule_round-Evolves, interrupt_round-Evolves,
}

pub data Operation : Type 0 where
  reported : ExecutionState → Operation
  reported_late : TaskExecution → ExecutionState → Operation
  requeued : ℕ → Operation
  pulls : String → String → List String → Operation
  previewed : Result (Unit {0}) → TaskExecution → Operation
  submitted : Result (Unit {0}) → TaskExecution → Operation
  acquired : ℕ → ℕ → String → Operation
  released : ℕ → String → Operation
  renewed : String → Operation
  parameterised : ℕ → ℕ → Option Params → Operation
  tried_again : Result (Unit {0}) → ℕ → Operation
  ran : Result (Unit {0}) → ℕ → String → Result Params → Operation
  halted : ℕ → Operation
  removed : ℕ → Operation
  defined : Task → Operation
  changed : Task → Operation
  switched : ℕ → ExecMode → Operation
  project_deleted : List ℕ → Result (Unit {0}) → Operation
  dispatched : Services → String → Task → Operation
  answered : TaskExecution → String → Result ExecutionState → Operation
  retried : Services → TaskExecution → Operation
  relocated : Services → TaskExecution → Operation
  scheduling : Services → String → ℕ → ℕ → Operation
  retrying : Services → ℕ → Operation
  relocating : Services → ℕ → Operation
  interrupting : ℕ → Operation
  cancels : ℕ → String → String → Operation
  cancels_execution : ℕ → String → Operation
  cancels_task : ℕ → String → Operation
  attaches : TaskExecution → Operation
  delivering : ℕ → Operation

unfoldable pub perform : Operation → World → World
perform (reported s) w = (update_state s w).1
perform (reported_late e s) w = (apply_state e s w).1
perform (requeued i) w = (requeue_pull i w).1
perform (pulls service node handlers) w = (claim_pull_task service node handlers w).1
perform (previewed permitted e) w = (create_preview permitted e w).1
perform (submitted permitted e) w = (create_workflow permitted e w).1
perform (acquired i version node) w = (acquire_task i version node w).1
perform (released i node) w = (release_task i node w).1
perform (renewed node) w = (renew node w).1
perform (parameterised i version m) w = (write_schedule_params i version m w).1
perform (tried_again authorized i) w = (retry_by_id authorized i w).1
perform (ran authorized i cron params) w = (run authorized i cron params w).1
perform (halted i) w = (stop i w).1
perform (removed i) w = (delete_stopped i w).1
perform (defined t) w = (create_task (record t { id = 0 }) w).1
perform (changed t) w = (update_task t w).1
perform (switched i mode) w = (update_exec_mode i mode w).1
perform (project_deleted ids rest) w = (transaction (stop_project_tasks ids >> throw rest) w).1
perform (dispatched s node t) w = (dispatch s node t w).1
perform (answered e prefix r) w = (call_answered e prefix r w).1
perform (retried s e) w = (retry s e w).1
perform (relocated s e) w = (reschedule s e w).1
perform (scheduling s node timeout limit) w = (schedule_round s node timeout limit w).1
perform (retrying s limit) w = (retry_round s limit w).1
perform (relocating s limit) w = (reschedule_round s limit w).1
perform (interrupting limit) w = (interrupt_round limit w).1
perform (cancels i key reason) w = (request i key reason w).1
perform (cancels_execution i reason) w = (request_execution i reason w).1
perform (cancels_task i reason) w = (terminate_active_by_task_id i reason w).1
perform (attaches e) w = (attach_execution e w).1
perform (delivering limit) w = (deliver_pending limit w).1

-- From one world to a later one. While a completion moves its task on, others may run in between
-- (`others`), and so on without end.
infix 30 ◌⇝◌
pub data ◌⇝◌ : World → World → Type 0 where
  begins : {u : World} → u ⇝ u
  performs : {u v : World} → u ⇝ v → (op : Operation) → u ⇝ perform op v
  completes :
      {u v : World}
      → u ⇝ v
      → (others : ℕ → World → World) → ((k : ℕ) (x : World) → x ⇝ others k x)
      → (ev : CompleteEvent) → u ⇝ (handle_task others ev v).1
  moves_on :
      {u v : World}
      → u ⇝ v
      → (others : ℕ → World → World) → ((k : ℕ) (x : World) → x ⇝ others k x)
      → (i : ℕ) → u ⇝ (update_next_time others i v).1
  waits : {u v : World} → u ⇝ v → (time : ℕ) → u ⇝ record v { now = v.now + time }
  loses : {u v : World} → u ⇝ v → (faults : List Bool) → u ⇝ record v { faults = faults }
  serves : {u v : World} → u ⇝ v → (tenant : ℕ) → u ⇝ record v { tenant = tenant }

project_deleted-Evolves :
    (ids : List ℕ) (rest : Result (Unit {0}))
    → Obeys Evolves (transaction (stop_project_tasks ids >> throw rest))
project_deleted-Evolves ids rest = search (task_rules, stop_project_tasks-Evolves) depth 8

pub perform-Evolves : (op : Operation) (w : World) → Evolves w (perform op w)
unfolding perform
perform-Evolves (reported s) w = (update_state-Evolves s).at w
perform-Evolves (reported_late e s) w = (apply_state-Evolves e s).at w
perform-Evolves (requeued i) w = (requeue_pull-Evolves i).at w
perform-Evolves (pulls service node handlers) w =
    (claim_pull_task-Evolves service node handlers).at w
perform-Evolves (previewed permitted e) w = (create_preview-Evolves permitted e).at w
perform-Evolves (submitted permitted e) w = (create_workflow-Evolves permitted e).at w
perform-Evolves (acquired i version node) w = (acquire_task-Evolves i version node).at w
perform-Evolves (released i node) w = (release_task-Evolves i node).at w
perform-Evolves (renewed node) w = (renew-Evolves node).at w
perform-Evolves (parameterised i version m) w = (write_schedule_params-Evolves i version m).at w
perform-Evolves (tried_again authorized i) w = (retry_by_id-Evolves authorized i).at w
perform-Evolves (ran authorized i cron params) w = (run-Evolves authorized i cron params).at w
perform-Evolves (halted i) w = (stop-Evolves i).at w
perform-Evolves (removed i) w = (delete_stopped-Evolves i).at w
perform-Evolves (defined t) w = (create_task-Evolves (record t { id = 0 }) refl).at w
perform-Evolves (changed t) w = (update_task-Evolves t).at w
perform-Evolves (switched i mode) w = (update_exec_mode-Evolves i mode).at w
perform-Evolves (project_deleted ids rest) w = (project_deleted-Evolves ids rest).at w
perform-Evolves (dispatched s node t) w = (dispatch-Evolves s node t).at w
perform-Evolves (answered e prefix r) w = (call_answered-Evolves e prefix r).at w
perform-Evolves (retried s e) w = (retry-Evolves s e).at w
perform-Evolves (relocated s e) w = (reschedule-Evolves s e).at w
perform-Evolves (scheduling s node timeout limit) w =
    (schedule_round-Evolves s node timeout limit).at w
perform-Evolves (retrying s limit) w = (retry_round-Evolves s limit).at w
perform-Evolves (relocating s limit) w = (reschedule_round-Evolves s limit).at w
perform-Evolves (interrupting limit) w = (interrupt_round-Evolves limit).at w
perform-Evolves (cancels i key reason) w = (request-Evolves i key reason).at w
perform-Evolves (cancels_execution i reason) w = (request_execution-Evolves i reason).at w
perform-Evolves (cancels_task i reason) w = (terminate_active_by_task_id-Evolves i reason).at w
perform-Evolves (attaches e) w = (attach_execution-Evolves e).at w
perform-Evolves (delivering limit) w = (deliver_pending-Evolves limit).at w

-- a change that no table sees
apart :
    (u v w : World)
    → Evolves u v
    → w.executions ≡ v.executions
    → w.next_execution_id ≡ v.next_execution_id
    → w.tasks ≡ v.tasks
    → w.next_task_id ≡ v.next_task_id
    → Evolves u w
apart u v w h e n t m k =
    let a = h k in
    record { keyed = rw (e, n) a.keyed; grows = rw e a.grows; tasks_kept = rw (t, m) a.tasks_kept }

pub ⇝-Evolves : (u v : World) → u ⇝ v → Evolves u v
⇝-Evolves u _ begins = Evolves-Evolution.still u u.faults
⇝-Evolves u _ (performs {v = v} r op) =
    Evolves-Evolution.go_on u v (perform op v) (⇝-Evolves u v r) (perform-Evolves op v)
⇝-Evolves u _ (completes {v = v} r others h ev) =
    Evolves-Evolution.go_on u v (handle_task others ev v).1 (⇝-Evolves u v r)
      ((handle_task-Evolves others (λ k x. ⇝-Evolves x (others k x) (h k x)) ev).at v)
⇝-Evolves u _ (moves_on {v = v} r others h i) =
    Evolves-Evolution.go_on u v (update_next_time others i v).1 (⇝-Evolves u v r)
      ((update_next_time-Evolves others (λ k x. ⇝-Evolves x (others k x) (h k x)) i).at v)
⇝-Evolves u _ (waits {v = v} r time) =
    apart u v (record v { now = v.now + time }) (⇝-Evolves u v r) refl refl refl refl
⇝-Evolves u _ (loses {v = v} r faults) =
    apart u v (record v { faults = faults }) (⇝-Evolves u v r) refl refl refl refl
⇝-Evolves u _ (serves {v = v} r tenant) =
    apart u v (record v { tenant = tenant }) (⇝-Evolves u v r) refl refl refl refl
