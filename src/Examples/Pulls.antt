-- ===== src/Examples/Pulls.antt =====
-- Examples of pulling, scanning and submitting again.
use etask.Base.{
  ℕ, ◌+◌, ◌≤◌, ◌≡◌, ◌≢◌, ◌⊎◌, refl, inl, Member, List, [], ◌∷◌, Bool, false, some, any_where, arith,
  sort_by, trim_space,
}
use etask.Errs.{ok}
use etask.Domain.Status.{waiting_pull, running, source_workflow, same_status}
use etask.Domain.Execution.{TaskExecution}
use etask.Domain.Task.{active, preempted}
use etask.Store.{World}
use etask.Store.Action.{◌>>=◌, gets, transaction, throw, statement}
use etask.Execution.Table.{select_executions, found_or, update_executions}
use etask.Execution.Queries.{claim_pull_task, claim_locked, pull_candidates, claimed_by}
use etask.Task.Table.{select_tasks}
use etask.Task.Changes.{find_schedule_tasks, is_open_for}
use etask.Dispatch.Creation.{create_workflow}
use etask.System.Safety.{IsSound}
use etask.System.Pulling.{claim_pull_task-once}
use etask.System.Scanning.{find_schedule_tasks-due, create_workflow-again}
use etask.Examples.Sample.{an_execution, idle, waiting_task}

abbrev queued : ℕ → TaskExecution
queued i = an_execution i waiting_pull

abbrev submitted : TaskExecution
submitted = record (an_execution 3 running) {
  snapshot = record (an_execution 3 running).snapshot {
    source = source_workflow;
    request_id = some "r1";
  };
}

abbrev queue : World
queue = record idle { executions = queued 1 ∷ queued 2 ∷ submitted ∷ [] }

queue-IsSound : IsSound queue
queue-IsSound = record { executions_keyed = ground arith; tasks_keyed = ground arith }

abbrev first_claim : TaskExecution
first_claim = claimed_by 1000 "agent" (queued 1) (queued 1)

abbrev second_claim : TaskExecution
second_claim = claimed_by 1000 "agent2" (queued 2) (queued 2)

pulled_first : (claim_pull_task "pool" "agent" ("job" ∷ []) queue).0 ≡ ok first_claim
unfolding claim_pull_task ◌>>=◌ gets pull_candidates select_executions statement sort_by same_status
    claim_locked transaction throw found_or update_executions
pulled_first = refl

pulled_second :
    (claim_pull_task "pool" "agent2"
      ("job" ∷ [])
      (claim_pull_task "pool" "agent" ("job" ∷ []) queue).1).0
    ≡ ok second_claim
unfolding claim_pull_task ◌>>=◌ gets pull_candidates select_executions statement sort_by same_status
    claim_locked transaction throw found_or update_executions
pulled_second = refl

claim_pull_task-once_example : second_claim.id ≢ first_claim.id
claim_pull_task-once_example =
    claim_pull_task-once "pool" "agent" "pool" "agent2" ("job" ∷ []) ("job" ∷ []) queue first_claim
      second_claim queue-IsSound pulled_first pulled_second

due_now : (find_schedule_tasks 5000 10 idle).0 ≡ ok (waiting_task ∷ [])
unfolding find_schedule_tasks select_tasks statement gets sort_by
due_now = refl

find_schedule_tasks-due_example :
    Member waiting_task idle.tasks
    × (900 ≤ 1000)
    × ((active ≡ active)
        ⊎ ((active ≡ preempted)
            × (100 + 5000 ≤ 1000)
            × (any_where (is_open_for waiting_task) idle.executions ≡ false)))
find_schedule_tasks-due_example =
    find_schedule_tasks-due 5000 10 idle (waiting_task ∷ []) waiting_task due_now (inl refl)

create_workflow-again_example :
    (rest : List Bool) × ((create_workflow (ok tt) submitted queue).1
      ≡ record queue { faults = rest })
unfolding trim_space
create_workflow-again_example = create_workflow-again submitted submitted queue refl (ok tt) refl
