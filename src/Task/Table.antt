-- ===== src/Task/Table.antt =====
-- internal/repository/dao/task.go: reading and writing tasks, and the lease of a scheduler node.
-- Unless a statement says otherwise, it meets only the rows that the tenant scope lets through.
use etask.Base.{
  ℕ, ◌+◌, String, Bool, false, ◌&&◌, Option, none, some, ◌==◌, str_eq, if◌then◌else◌, first_where,
  update_where, count_where,
}
use etask.Errs.{
  Err, Result, ok, err, record_not_found, task_preempt_failed, task_release_failed,
  task_update_next_time_failed, task_update_status_failed, task_update_schedule_params_failed,
}
use etask.Domain.Execution.{Params}
use etask.Domain.Task.{Task, TaskStatus, active, preempted, is_preempted}
use etask.Store.{World}
use etask.Store.Action.{Action, pure, fail, throw, gets, statement, transaction, ◌>>=◌, ◌>>◌}

abbrev pub change_tasks : (World → Task → Bool) → (Task → Task) → Action ℕ
change_tasks p f w =
    (ok (count_where (p w) w.tasks), record w { tasks = update_where (p w) f w.tasks })

-- UPDATE tasks SET … WHERE …
unfoldable pub update_tasks : (World → Task → Bool) → (Task → Task) → Action ℕ
update_tasks p f = statement (change_tasks p f)

unfoldable pub select_tasks : {A : Type 0} → (World → A) → Action A
select_tasks f = statement (gets f)

abbrev pub in_scope : World → Task → Bool
in_scope w t = w.scope_of w.tenant t.tenant_id

abbrev pub task_id_is : ℕ → World → Task → Bool
task_id_is i w t = in_scope w t && t.id == i

abbrev pub at_version : ℕ → ℕ → World → Task → Bool
at_version i version w t = task_id_is i w t && t.version == version

unfoldable pub task_or : Result Task → Option Task → Result Task
task_or r none = r
task_or r (some t) = ok t

-- `GetByID`
unfoldable pub get_task : ℕ → Action Task
get_task i = do
  found ← select_tasks (λ w. first_where (task_id_is i w) w.tasks)
  throw (task_or (err record_not_found) found)

-- A write, the check that it met a row, and the row read back, in one transaction.
unfoldable pub write_and_read : ℕ → (World → Task → Bool) → (Task → Task) → Err → Action Task
write_and_read i p f missed =
    transaction (do affected ← update_tasks p f; if affected == 0 then fail missed else get_task i)

abbrev pub bumped : ℕ → Task → Task
bumped now t = record t { version = t.version + 1; utime = now }

abbrev pub acquired_by : String → ℕ → Task → Task
acquired_by node now t = record (bumped now t) { status = preempted; schedule_node_id = some node }

-- `Acquire`
unfoldable pub acquire : ℕ → ℕ → String → Action Task
acquire i version node = do
  now ← gets (λ w. w.now)
  write_and_read i (at_version i version) (acquired_by node now) task_preempt_failed

abbrev pub is_node : String → Option String → Bool
is_node node none = false
is_node node (some n) = str_eq n node

abbrev pub leased_to : String → Task → Bool
leased_to node t = is_node node t.schedule_node_id && is_preempted t.status

-- `Renew`, of every tenant
unfoldable pub renew : String → Action (Unit {0})
renew node = do
  now ← gets (λ w. w.now)
  update_tasks (λ _ t. leased_to node t) (bumped now)
  pure tt

abbrev pub freed : TaskStatus → ℕ → Task → Task
freed status now t = record (bumped now t) { status = status; schedule_node_id = none }

-- `Release`
unfoldable pub release : ℕ → String → Action Task
release i node = do
  now ← gets (λ w. w.now)
  write_and_read i (λ w t. task_id_is i w t && leased_to node t) (freed active now)
      task_release_failed

-- `UpdateNextTime`
unfoldable pub write_next_time : ℕ → ℕ → ℕ → Action Task
write_next_time i version next_time = do
  now ← gets (λ w. w.now)
  write_and_read i (at_version i version) (λ t. record (bumped now t) { next_time = next_time })
      task_update_next_time_failed

-- `UpdateScheduleParams`
unfoldable pub write_schedule_params : ℕ → ℕ → Option Params → Action Task
write_schedule_params i version params = do
  now ← gets (λ w. w.now)
  write_and_read i (at_version i version) (λ t. record (bumped now t) { schedule_params = params })
      task_update_schedule_params_failed

-- `UpdateStatus`
unfoldable pub write_task_status : ℕ → TaskStatus → Action Task
write_task_status i status = do
  now ← gets (λ w. w.now)
  write_and_read i (task_id_is i) (λ t. record (bumped now t) { status = status })
      task_update_status_failed

-- `Retry`
unfoldable pub retry_task : ℕ → ℕ → ℕ → Action Task
retry_task i version next_time = do
  now ← gets (λ w. w.now)
  write_and_read i (at_version i version)
      (λ t. record (freed active now t) { next_time = next_time }) task_update_next_time_failed
