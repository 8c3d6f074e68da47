-- ===== src/System/Leases.antt =====
-- The task service and the acquirer (internal/service/task/service.go,
-- internal/service/acquirer/task_acquirer.go) keep the tables evolving.
use etask.Base.{ℕ, zero, suc, Option, none, some, String}
use etask.Errs.{Result}
use etask.Domain.Execution.{Params}
use etask.Domain.Task.{Task}
use etask.Store.{World}
use etask.Store.Action.{pure, ◌>>◌}
use etask.Store.Obeys.{Obeys, Obeys-bind}
use etask.Execution.Diagram.Steps.{Evolves}
use etask.Execution.Diagram.Rules.{Evolves-Evolution}
use etask.Task.Table.{get_task}
use etask.Task.Service.{
  interlude, set_next_time, try_next_time, write_timed, move_to_next, update_next_time_loop,
  update_next_time, acquire_task, release_task, retry_by_id, delete_stopped, stop, run,
}
use etask.Task.Lock.Statements.{
  task_rules, get_task-Evolves, acquire-Evolves, release-Evolves, write_next_time-Evolves,
  write_task_status-Evolves, retry_task-Evolves,
}
use etask.Task.Lock.Edits.{start-Evolves, reset_schedule-Evolves, delete_task-Evolves}

pub acquire_task-Evolves :
    (i version : ℕ) (node : String) → Obeys Evolves (acquire_task i version node)
unfolding acquire_task
acquire_task-Evolves i version node = search (task_rules, acquire-Evolves) depth 8

pub release_task-Evolves : (i : ℕ) (node : String) → Obeys Evolves (release_task i node)
unfolding release_task
release_task-Evolves i node = search (task_rules, release-Evolves) depth 8

set_next_time-Evolves : (t : Task) → Obeys Evolves (set_next_time t)
unfolding set_next_time
set_next_time-Evolves t = search task_rules depth 8

interlude-Evolves :
    (f : World → World) → ((w : World) → Evolves w (f w)) → Obeys Evolves (interlude f)
unfolding interlude
interlude-Evolves f h = record { at = h }

write_timed-Evolves : (t : Task) → Obeys Evolves (write_timed t)
unfolding write_timed
write_timed-Evolves t = search (task_rules, write_next_time-Evolves) depth 10

move_to_next-Evolves : (i : ℕ) (t : Task) → Obeys Evolves (move_to_next i t)
unfolding move_to_next
move_to_next-Evolves i t =
    search (task_rules, set_next_time-Evolves, write_timed-Evolves, write_task_status-Evolves) depth
      12

module _ (f : World → World) (h : (w : World) → Evolves w (f w)) where
  try_next_time-Evolves : (i : ℕ) → Obeys Evolves (try_next_time f i)
  unfolding try_next_time
  try_next_time-Evolves i =
      Obeys-bind Evolves-Evolution (get_task i) (λ t. interlude f >> move_to_next i t)
        (get_task-Evolves i)
        (λ t.
          Obeys-bind Evolves-Evolution (interlude f) (λ _. move_to_next i t) (interlude-Evolves f h)
            (λ _. move_to_next-Evolves i t))

module _ (others : ℕ → World → World) (h : (k : ℕ) (w : World) → Evolves w (others k w)) where
  done_or_again :
      (i k : ℕ) (done : Option Task)
      → Obeys Evolves (update_next_time_loop k others i)
      → Obeys Evolves (elim done [ some t ↦ pure t | none ↦ update_next_time_loop k others i ])
  done_or_again i k (some t) again = search task_rules
  done_or_again i k none again = again

  update_next_time_loop-Evolves : (k i : ℕ) → Obeys Evolves (update_next_time_loop k others i)
  unfolding update_next_time_loop
  update_next_time_loop-Evolves zero i = search task_rules
  update_next_time_loop-Evolves (suc k) i =
      let rest = update_next_time_loop-Evolves k i in
      Obeys-bind Evolves-Evolution (try_next_time (others k) i)
        (λ done. elim done [ some t ↦ pure t | none ↦ update_next_time_loop k others i ])
        (try_next_time-Evolves (others k) (h k) i) (λ done. done_or_again i k done rest)

  pub update_next_time-Evolves : (i : ℕ) → Obeys Evolves (update_next_time others i)
  unfolding update_next_time
  update_next_time-Evolves i = update_next_time_loop-Evolves 4 i

pub retry_by_id-Evolves :
    (authorized : Result (Unit {0})) (i : ℕ) → Obeys Evolves (retry_by_id authorized i)
unfolding retry_by_id
retry_by_id-Evolves authorized i =
    search (task_rules, get_task-Evolves, retry_task-Evolves) depth 10

pub delete_stopped-Evolves : (i : ℕ) → Obeys Evolves (delete_stopped i)
unfolding delete_stopped
delete_stopped-Evolves i = search (task_rules, get_task-Evolves, delete_task-Evolves) depth 8

pub stop-Evolves : (i : ℕ) → Obeys Evolves (stop i)
unfolding stop
stop-Evolves i = search (task_rules, write_task_status-Evolves) depth 8

pub run-Evolves :
    (authorized : Result (Unit {0})) (i : ℕ) (cron : String) (serialized : Result Params)
    → Obeys Evolves (run authorized i cron serialized)
unfolding run
run-Evolves authorized i cron serialized =
    search
      (task_rules, get_task-Evolves, start-Evolves, set_next_time-Evolves, reset_schedule-Evolves)
      depth 14
