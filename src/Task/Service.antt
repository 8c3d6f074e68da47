-- ===== src/Task/Service.antt =====
-- internal/service/task/service.go, internal/service/acquirer/task_acquirer.go: the next time of a
-- task, its lease with the news of it, and the operations of its owner.
-- `others k` is what other processes do to the world between the reading and the writing of the
-- k-th remaining attempt.
use etask.Base.{
  ℕ, zero, suc, String, Bool, true, false, not, ◌&&◌, ◌||◌, Option, none, some, ltb, ◌==◌,
  if◌then◌else◌,
}
use etask.Errs.{
  Result, ok, err, invalid_cron_expr, task_update_next_time_failed, task_is_running,
  task_not_stopped, invalid_command,
}
use etask.Domain.Route.{is_empty}
use etask.Domain.Execution.{Params}
use etask.Domain.Task.{
  Task, active, inactive, completed, is_completed, is_preempted, is_inactive, is_one_time,
}
use etask.Store.{World, task_changed}
use etask.Store.Action.{Action, pure, fail, throw, try, gets, emit, ◌>>=◌, ◌>>◌}
use etask.Task.Table.{get_task, acquire, release, write_next_time, write_task_status, retry_task}
use etask.Task.Changes.{delete_task, start, reset_schedule}

abbrev trigger_or : Option ℕ → Result ℕ
trigger_or none = err invalid_cron_expr
trigger_or (some t) = ok t

-- `CalculateNextTime` and `setNextScheduleTime`: 0 for no next time
unfoldable pub calculate_next_time : Task → World → Result ℕ
calculate_next_time t w =
    if is_one_time t.task_type && is_completed t.status
    then ok 0
    else if is_empty t.cron_expr
    then ok 0
    else trigger_or (w.cron_next t.cron_expr t.skip_holiday w.now)

unfoldable pub set_next_time : Task → Action Task
set_next_time t = do
  calculated ← gets (calculate_next_time t)
  next ← throw calculated
  pure (record t { next_time = next })

-- The lock was lost to another writer.
abbrev is_conflict : Result Task → Bool
is_conflict (err task_update_next_time_failed) = true
is_conflict _ = false

unfoldable pub interlude : (World → World) → Action (Unit {0})
interlude f w = (ok tt, f w)

-- What an attempt writes for the task that it read: `none` if the version had moved on.
unfoldable pub write_timed : Task → Action (Option Task)
write_timed t = do
  written ← try (write_next_time t.id t.version t.next_time)
  if is_conflict written then pure none else (do t' ← throw written; pure (some t'))

unfoldable pub move_to_next : ℕ → Task → Action (Option Task)
move_to_next i t = do
  now ← gets (λ w. w.now)
  if is_one_time t.task_type && ltb t.next_time now
      then (do done ← write_task_status i completed; pure (some done))
      else do
        timed ← set_next_time t
        if timed.next_time == 0 then pure (some timed) else write_timed timed

unfoldable pub try_next_time : (World → World) → ℕ → Action (Option Task)
try_next_time others i = do t ← get_task i; interlude others; move_to_next i t

-- `UpdateNextTime`: the first attempt and, on conflicts, as many again as the strategy allows.
unfoldable pub update_next_time_loop : ℕ → (ℕ → World → World) → ℕ → Action Task
update_next_time_loop zero others i = fail task_update_next_time_failed
update_next_time_loop (suc k) others i = do
  done ← try_next_time (others k) i
  elim done [ some t ↦ pure t | none ↦ update_next_time_loop k others i ]

unfoldable pub update_next_time : (ℕ → World → World) → ℕ → Action Task
update_next_time others i = update_next_time_loop 4 others i

abbrev pub announce : Task → Action (Unit {0})
announce t = emit (task_changed t.id t.status t.next_time t.version)

-- `Acquire` and `Release` of the acquirer, which tell the browsers
unfoldable pub acquire_task : ℕ → ℕ → String → Action Task
acquire_task i version node = do t ← acquire i version node; announce t; pure t

unfoldable pub release_task : ℕ → String → Action (Unit {0})
release_task i node = do t ← release i node; announce t

-- `AuthorizeExecutionPool` asks another service: the answer is an argument.
unfoldable pub retry_by_id : Result (Unit {0}) → ℕ → Action Task
retry_by_id authorized i = do
  t ← get_task i
  if is_preempted t.status
      then fail task_is_running
      else do throw authorized; now ← gets (λ w. w.now); retry_task t.id t.version now

-- `Delete`
unfoldable pub delete_stopped : ℕ → Action (Unit {0})
delete_stopped i = do
  t ← get_task i
  if is_inactive t.status || is_completed t.status then delete_task i else fail task_not_stopped

-- `Stop`
unfoldable pub stop : ℕ → Action (Unit {0})
stop i = do write_task_status i inactive; pure tt

-- `Run`, from where the parameter overrides have been checked: `serialized` are those that passed
unfoldable pub run : Result (Unit {0}) → ℕ → String → Result Params → Action (Unit {0})
run authorized i cron_expr serialized = do
  t ← get_task i
  throw authorized
  params ← throw serialized
  if is_empty cron_expr
      then start i params
      else if not (is_one_time t.task_type)
      then fail invalid_command
      else if is_preempted t.status
      then fail task_is_running
      else do
        timed ← set_next_time (record t { cron_expr = cron_expr; status = active })
        reset_schedule i cron_expr active timed.next_time params
