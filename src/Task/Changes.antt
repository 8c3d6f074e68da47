-- ===== src/Task/Changes.antt =====
-- internal/repository/dao/task.go: starting, editing and deleting tasks, and the scan of the
-- schedulers; and internal/repository/dao/project_deletion.go, which stops the tasks of a project.
use etask.Base.{
  ℕ, suc, ◌+◌, String, Bool, not, ◌&&◌, ◌||◌, List, [], ◌∷◌, ◌++◌, leb, ltb, ◌==◌, str_eq,
  if◌then◌else◌, keep_where, any_where, take, sort_by,
}
use etask.Errs.{ok, err, task_is_running, task_not_found, task_name_duplicate}
use etask.Domain.Status.{status_in, non_terminal_statuses}
use etask.Domain.Route.{ExecMode}
use etask.Domain.Execution.{TaskExecution, Params}
use etask.Domain.Task.{Task, TaskStatus, active, inactive, is_active, is_preempted}
use etask.Store.{World}
use etask.Store.Action.{Action, pure, fail, gets, statement, transaction, ◌>>=◌, ◌>>◌}
use etask.Execution.Table.{delete_overrides}
use etask.Task.Table.{update_tasks, select_tasks, in_scope, task_id_is, bumped, freed}

-- an execution of the task that has not ended
abbrev pub is_open_for : Task → TaskExecution → Bool
is_open_for t e = e.task_id == t.id && status_in non_terminal_statuses e.status

abbrev pub is_schedulable : ℕ → ℕ → World → Task → Bool
is_schedulable now timeout w t =
    leb t.next_time now
    && (is_active t.status
        || (is_preempted t.status
            && leb (t.utime + timeout) now
            && not (any_where (is_open_for t) w.executions)))

-- `FindScheduleTasks`, of every tenant
unfoldable pub find_schedule_tasks : ℕ → ℕ → Action (List Task)
find_schedule_tasks timeout limit = select_tasks (λ w.
    take limit (sort_by (λ t. t.next_time) (keep_where (is_schedulable w.now timeout w) w.tasks)))

abbrev pub startable : ℕ → World → Task → Bool
startable i w t = task_id_is i w t && not (is_preempted t.status)

abbrev pub insert_override : ℕ → Params → Action (Unit {0})
insert_override i params w =
    (ok tt, record w { run_overrides = w.run_overrides ++ ((i, params) ∷ []) })

unfoldable pub store_overrides : ℕ → Params → Action (Unit {0})
store_overrides i [] = pure tt
store_overrides i (p ∷ ps) = statement (insert_override i (p ∷ ps))

-- the part that `Start` and `ResetSchedule` share
unfoldable pub restart : ℕ → (Task → Task) → Params → Action (Unit {0})
restart i f params = transaction (do
  affected ← update_tasks (startable i) f
  if affected == 0
      then fail task_is_running
      else do statement (delete_overrides i); store_overrides i params)

-- `Start`
unfoldable pub start : ℕ → Params → Action (Unit {0})
start i params = do
  now ← gets (λ w. w.now)
  restart i (λ t. record (freed active now t) { next_time = now }) params

-- `ResetSchedule`
unfoldable pub reset_schedule : ℕ → String → TaskStatus → ℕ → Params → Action (Unit {0})
reset_schedule i cron_expr status next_time params = do
  now ← gets (λ w. w.now)
  restart i (λ t. record (freed status now t) { cron_expr = cron_expr; next_time = next_time })
      params

-- `UpdateExecMode`, the one write that leaves the version alone
unfoldable pub update_exec_mode : ℕ → ExecMode → Action (Unit {0})
update_exec_mode i mode = do
  now ← gets (λ w. w.now)
  affected ← update_tasks (task_id_is i) (λ t. record t { exec_mode = mode; utime = now })
  if affected == 0 then fail task_not_found else pure tt

-- `taskUpdateFields`: the configuration, not the status nor the lease
abbrev pub edited : Task → ℕ → Task → Task
edited new now t = record (bumped now t) {
  name = new.name;
  task_type = new.task_type;
  cron_expr = new.cron_expr;
  skip_holiday = new.skip_holiday;
  grpc_config = new.grpc_config;
  has_http_config = new.has_http_config;
  retry_config = new.retry_config;
  schedule_params = new.schedule_params;
  max_execution_seconds = new.max_execution_seconds;
  next_time = new.next_time;
  notify_on = new.notify_on;
  business_notification = new.business_notification;
}

-- `Update`
unfoldable pub update_task : Task → Action (Unit {0})
update_task new = transaction (do
  now ← gets (λ w. w.now)
  affected ← update_tasks (task_id_is new.id) (edited new now)
  if affected == 0 then fail task_not_found else pure tt)

abbrev pub remove_task : ℕ → Action (Unit {0})
remove_task i w = (ok tt, record w { tasks = keep_where (λ t. not (task_id_is i w t)) w.tasks })

-- `Delete`
unfoldable pub delete_task : ℕ → Action (Unit {0})
delete_task i = transaction (do statement (delete_overrides i); statement (remove_task i))

abbrev pub is_stoppable : List ℕ → World → Task → Bool
is_stoppable ids w t =
    in_scope w t && any_where (λ i. i == t.id) ids && (is_active t.status || is_preempted t.status)

-- `stopProjectTasks`
unfoldable pub stop_project_tasks : List ℕ → Action (Unit {0})
stop_project_tasks [] = pure tt
stop_project_tasks (i ∷ ids) = do
  now ← gets (λ w. w.now)
  update_tasks (is_stoppable (i ∷ ids)) (λ t. record (freed inactive now t) { next_time = 0 })
  pure tt

abbrev pub same_name : Task → Task → Bool
same_name new t = t.tenant_id == new.tenant_id && str_eq t.name new.name

-- AUTO_INCREMENT, for a task that brings no id of its own
abbrev pub given_id : World → Task → ℕ
given_id w new = if new.id == 0 then w.next_task_id else new.id

abbrev pub stamped : World → Task → Task
stamped w new = record new {
  id = given_id w new;
  version = if new.version == 0 then 1 else new.version;
  utime = w.now;
}

-- the primary key, and the unique index on the name
abbrev pub clashes : Task → Task → Bool
clashes row t = t.id == row.id || same_name row t

-- an id of the caller's moves the counter past it
abbrev pub insert_task : Task → Action Task
insert_task new w =
    let row = stamped w new in
    if any_where (clashes row) w.tasks then (err task_name_duplicate, w) else (
      ok row,
      record w {
        tasks = w.tasks ++ (row ∷ []);
        next_task_id = if ltb row.id w.next_task_id then w.next_task_id else suc row.id;
      },
    )

-- `Create`
unfoldable pub create_task : Task → Action Task
create_task new = transaction (statement (insert_task new))
