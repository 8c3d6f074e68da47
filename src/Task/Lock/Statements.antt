-- ===== src/Task/Lock/Statements.antt =====
-- Every write of internal/repository/dao/task.go honours the version of the task.
use etask.Base.{ℕ, refl, Bool, String, Option}
use etask.Errs.{Err}
use etask.Domain.Execution.{Params}
use etask.Domain.Task.{Task, TaskStatus, active}
use etask.Store.{World}
use etask.Store.Obeys.{Obeys, Obeys-statement, obeys_rules}
use etask.Task.Table.{
  change_tasks, select_tasks, update_tasks, get_task, write_and_read, task_id_is, at_version,
  bumped, acquired_by, acquire, renew, leased_to, release, freed, write_next_time,
  write_schedule_params, write_task_status, retry_task,
}
use etask.Task.Lock.Rows.{Locked, Bumps, Bumps-Locked, Kept-update_where}
use etask.Execution.Diagram.Steps.{Evolves, Grows-refl}
use etask.Execution.Diagram.Rules.{Evolves-Evolution}

-- An update of tasks that keeps the lock of every row, which does not touch the executions.
pub update_tasks-Evolves :
    (p : World → Task → Bool) (f : Task → Task)
    → ((x : Task) → Locked x (f x))
    → Obeys Evolves (update_tasks p f)
unfolding update_tasks
update_tasks-Evolves p f h = Obeys-statement Evolves-Evolution (change_tasks p f) (record {
  at = λ w k. record {
    keyed = k;
    grows = Grows-refl w.executions;
    tasks_kept = Kept-update_where w.next_task_id (p w) f h w.tasks;
  };
})

pub select_tasks-Evolves : {A : Type 0} (f : World → A) → Obeys Evolves (select_tasks f)
unfolding select_tasks
select_tasks-Evolves f = search (obeys_rules, Evolves-Evolution)

pub ruleset task_rules =
    (obeys_rules, Evolves-Evolution, update_tasks-Evolves, select_tasks-Evolves)

pub get_task-Evolves : (i : ℕ) → Obeys Evolves (get_task i)
unfolding get_task
get_task-Evolves i = search task_rules

pub write_and_read-Evolves :
    (i : ℕ) (p : World → Task → Bool) (f : Task → Task) (missed : Err)
    → Bumps f
    → Obeys Evolves (write_and_read i p f missed)
unfolding write_and_read
write_and_read-Evolves i p f missed b =
    search (task_rules, get_task-Evolves, Bumps-Locked f b) depth 9

pub acquired_by-Bumps : (node : String) (now : ℕ) → Bumps (acquired_by node now)
acquired_by-Bumps node now = record {
  keeps_id = λ x. refl;
  keeps_tenant = λ x. refl;
  raises = λ x. refl;
}

pub freed-Bumps : (status : TaskStatus) (now : ℕ) → Bumps (freed status now)
freed-Bumps status now = record {
  keeps_id = λ x. refl;
  keeps_tenant = λ x. refl;
  raises = λ x. refl;
}

pub acquire-Evolves : (i version : ℕ) (node : String) → Obeys Evolves (acquire i version node)
unfolding acquire
acquire-Evolves i version node =
    search (task_rules, write_and_read-Evolves, acquired_by-Bumps) depth 8

pub renew-Evolves : (node : String) → Obeys Evolves (renew node)
unfolding renew
renew-Evolves node =
    search
      (
        task_rules,
        λ (now : ℕ).
            update_tasks-Evolves (λ _ t. leased_to node t) (bumped now)
              (Bumps-Locked (bumped now)
                (record { keeps_id = λ x. refl; keeps_tenant = λ x. refl; raises = λ x. refl })),
      )
      depth 8

pub release-Evolves : (i : ℕ) (node : String) → Obeys Evolves (release i node)
unfolding release
release-Evolves i node = search (task_rules, write_and_read-Evolves, freed-Bumps) depth 8

pub write_next_time-Evolves : (i version t : ℕ) → Obeys Evolves (write_next_time i version t)
unfolding write_next_time
write_next_time-Evolves i version next_time =
    search
      (
        task_rules,
        λ (now : ℕ) (missed : Err).
            write_and_read-Evolves i (at_version i version)
              (λ t. record (bumped now t) { next_time = next_time }) missed
              (record { keeps_id = λ x. refl; keeps_tenant = λ x. refl; raises = λ x. refl }),
      )
      depth 8

pub write_schedule_params-Evolves :
    (i version : ℕ) (m : Option Params) → Obeys Evolves (write_schedule_params i version m)
unfolding write_schedule_params
write_schedule_params-Evolves i version m =
    search
      (
        task_rules,
        λ (now : ℕ) (missed : Err).
            write_and_read-Evolves i (at_version i version)
              (λ t. record (bumped now t) { schedule_params = m }) missed
              (record { keeps_id = λ x. refl; keeps_tenant = λ x. refl; raises = λ x. refl }),
      )
      depth 8

pub write_task_status-Evolves :
    (i : ℕ) (status : TaskStatus) → Obeys Evolves (write_task_status i status)
unfolding write_task_status
write_task_status-Evolves i status =
    search
      (
        task_rules,
        λ (now : ℕ) (missed : Err).
            write_and_read-Evolves i (task_id_is i) (λ t. record (bumped now t) { status = status })
              missed
              (record { keeps_id = λ x. refl; keeps_tenant = λ x. refl; raises = λ x. refl }),
      )
      depth 8

pub retry_task-Evolves : (i version t : ℕ) → Obeys Evolves (retry_task i version t)
unfolding retry_task
retry_task-Evolves i version next_time =
    search
      (
        task_rules,
        λ (now : ℕ) (missed : Err).
            write_and_read-Evolves i (at_version i version)
              (λ t. record (freed active now t) { next_time = next_time }) missed
              (record { keeps_id = λ x. refl; keeps_tenant = λ x. refl; raises = λ x. refl }),
      )
      depth 8
