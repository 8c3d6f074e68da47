-- ===== src/Task/Lock/Edits.antt =====
-- Starting, editing, creating and deleting tasks honours the version too.
use etask.Base.{
  ◌++◌, sym, subst, ltb, suc, if◌then◌else◌, ℕ, ◌≡◌, refl, List, [], ◌∷◌, String, arith, not,
  any_where, Bool-cases, inl, inr,
}
use etask.Domain.Route.{ExecMode}
use etask.Domain.Execution.{Params}
use etask.Domain.Task.{Task, TaskStatus, active, inactive}
use etask.Store.{World}
use etask.Store.Action.{statement}
use etask.Store.Obeys.{Obeys, Obeys-statement, Obeys-transaction}
use etask.Task.Table.{task_id_is, freed}
use etask.Task.Changes.{
  restart, store_overrides, insert_override, start, reset_schedule, update_exec_mode, edited,
  update_task, stop_project_tasks, remove_task, delete_task, insert_task, stamped, given_id,
  clashes, create_task,
}
use etask.Task.Lock.Rows.{
  Locked, Bumps, Bumps-Locked, Kept, Kept-refl, Kept-append, Kept-keep_where,
}
use etask.Execution.Diagram.Steps.{Evolves, Grows-refl}
use etask.Execution.Diagram.Rules.{Evolves-Evolution}
use etask.Execution.Diagram.Claims.{delete_overrides-Evolves}
use etask.Task.Lock.Statements.{task_rules, update_tasks-Evolves}

-- A change of the tasks alone.
of_tasks :
    (w w' : World)
    → w'.executions ≡ w.executions
    → w'.next_execution_id ≡ w.next_execution_id
    → Kept w.next_task_id w'.next_task_id w.tasks w'.tasks
    → Evolves w w'
of_tasks w w' e n h k = record {
  keyed = rw (e, n) k;
  grows = rw e (Grows-refl w.executions);
  tasks_kept = h;
}

insert_override-Evolves : (i : ℕ) (m : Params) → Obeys Evolves (insert_override i m)
insert_override-Evolves i m = record {
  at = λ w. of_tasks w (insert_override i m w).1 refl refl (Kept-refl w.next_task_id w.tasks);
}

store_overrides-Evolves : (i : ℕ) (m : Params) → Obeys Evolves (store_overrides i m)
unfolding store_overrides
store_overrides-Evolves i [] = search task_rules
store_overrides-Evolves i (p ∷ ps) = search (task_rules, insert_override-Evolves)

restart-Evolves : (i : ℕ) (f : Task → Task) (m : Params) → Bumps f → Obeys Evolves (restart i f m)
unfolding restart
restart-Evolves i f m b =
    search (task_rules, Bumps-Locked f b, delete_overrides-Evolves, store_overrides-Evolves) depth
      10

pub start-Evolves : (i : ℕ) (m : Params) → Obeys Evolves (start i m)
unfolding start
start-Evolves i m =
    search
      (
        task_rules,
        λ (now : ℕ).
            restart-Evolves i (λ t. record (freed active now t) { next_time = now }) m
              (record { keeps_id = λ x. refl; keeps_tenant = λ x. refl; raises = λ x. refl }),
      )
      depth 8

pub reset_schedule-Evolves :
    (i : ℕ) (cron : String) (status : TaskStatus) (t : ℕ) (m : Params)
    → Obeys Evolves (reset_schedule i cron status t m)
unfolding reset_schedule
reset_schedule-Evolves i cron status next_time m =
    search
      (
        task_rules,
        λ (now : ℕ).
            restart-Evolves i
              (λ t. record (freed status now t) { cron_expr = cron; next_time = next_time }) m
              (record { keeps_id = λ x. refl; keeps_tenant = λ x. refl; raises = λ x. refl }),
      )
      depth 8

-- The one write that does not raise the version changes nothing that the version guards.
mode-Locked :
    (mode : ExecMode) (now : ℕ) (x : Task) → Locked x (record x { exec_mode = mode; utime = now })
mode-Locked mode now x = record {
  same_id = refl;
  same_tenant = refl;
  version_grows = omega arith;
  version_locks = λ _. refl;
}

pub update_exec_mode-Evolves : (i : ℕ) (mode : ExecMode) → Obeys Evolves (update_exec_mode i mode)
unfolding update_exec_mode
update_exec_mode-Evolves i mode =
    search
      (
        task_rules,
        λ (now : ℕ).
            update_tasks-Evolves (task_id_is i) (λ t. record t { exec_mode = mode; utime = now })
              (mode-Locked mode now),
      )
      depth 9

pub update_task-Evolves : (new : Task) → Obeys Evolves (update_task new)
unfolding update_task
update_task-Evolves new =
    search
      (
        task_rules,
        λ (now : ℕ). update_tasks-Evolves (task_id_is new.id) (edited new now) (
            Bumps-Locked (edited new now)
              (record { keeps_id = λ x. refl; keeps_tenant = λ x. refl; raises = λ x. refl })),
      )
      depth 10

remove_task-Evolves : (i : ℕ) → Obeys Evolves (remove_task i)
remove_task-Evolves i = record {
  at = λ w.
      of_tasks w (remove_task i w).1 refl refl
        (Kept-keep_where w.next_task_id (λ t. not (task_id_is i w t)) w.tasks);
}

pub delete_task-Evolves : (i : ℕ) → Obeys Evolves (delete_task i)
unfolding delete_task
delete_task-Evolves i = search (task_rules, delete_overrides-Evolves, remove_task-Evolves) depth 9

pub stop_project_tasks-Evolves : (ids : List ℕ) → Obeys Evolves (stop_project_tasks ids)
unfolding stop_project_tasks
stop_project_tasks-Evolves [] = search task_rules
stop_project_tasks-Evolves (i ∷ ids) =
    search
      (
        task_rules,
        λ (now : ℕ).
            Bumps-Locked (λ t. record (freed inactive now t) { next_time = 0 })
              (record { keeps_id = λ x. refl; keeps_tenant = λ x. refl; raises = λ x. refl }),
      )
      depth 8

appended :
    (n : ℕ) (xs : List Task) (y : Task)
    → y.id ≡ n
    → Kept n (if ltb y.id n then n else suc y.id) xs (xs ++ (y ∷ []))
appended n xs y e =
    let next : (if ltb y.id n then n else suc y.id) ≡ suc n = ground arith in
    subst (λ k. Kept n k xs (xs ++ (y ∷ []))) (sym next) (Kept-append n xs y e)

insert_task-at : (new : Task) (w : World) → new.id ≡ 0 → Evolves w (insert_task new w).1
insert_task-at new w unnumbered =
    let given : given_id w new ≡ w.next_task_id = rw unnumbered refl in
    elim (Bool-cases (any_where (clashes (stamped w new)) w.tasks)) [
      | inl taken ↦ rw taken (Evolves-Evolution.still w w.faults)
      | inr free ↦ rw free (λ k. record {
        keyed = k;
        grows = Grows-refl w.executions;
        tasks_kept = appended w.next_task_id w.tasks (stamped w new) given;
      })
    ]

insert_task-Evolves : (new : Task) → new.id ≡ 0 → Obeys Evolves (insert_task new)
insert_task-Evolves new unnumbered = record { at = λ w. insert_task-at new w unnumbered }

-- A task that leaves its id to the table.
pub create_task-Evolves : (new : Task) → new.id ≡ 0 → Obeys Evolves (create_task new)
unfolding create_task
create_task-Evolves new unnumbered =
    Obeys-transaction Evolves-Evolution (statement (insert_task new))
      (Obeys-statement Evolves-Evolution (insert_task new) (insert_task-Evolves new unnumbered))
