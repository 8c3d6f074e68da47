-- ===== src/System/Looping.antt =====
-- The rounds of the scheduler and of the compensators keep the tables evolving.
use etask.Base.{ℕ, String, List, [], ◌∷◌}
use etask.Errs.{Result, ok, err, rejected}
use etask.Domain.Execution.{TaskExecution}
use etask.Domain.Task.{Task}
use etask.Store.Action.{Action}
use etask.Store.Obeys.{Obeys}
use etask.Execution.Diagram.Steps.{Evolves}
use etask.Execution.Diagram.Statements.{evolves_rules}
use etask.Execution.Queries.{
  find_retryable_executions, find_reschedulable_executions, find_timeout_executions,
}
use etask.Task.Changes.{find_schedule_tasks}
use etask.Task.Lock.Statements.{task_rules, get_task-Evolves}
use etask.System.Leases.{stop-Evolves}
use etask.System.Cancelling.{request_execution-Evolves}
use etask.System.Dispatching.{dispatch-Evolves, retry-Evolves, reschedule-Evolves}
use etask.Dispatch.Routing.{Services}
use etask.Dispatch.Rounds.{
  for_each, announce_found, after_stop, stop_unless_outdated, stop_with_fatal_config,
  after_dispatch, schedule_in_context, schedule_once, schedule_round, retry_round, reschedule_round,
  unless_rejected, interrupt, interrupt_round,
}

for_each-Evolves :
    {A : Type 0} (f : A → Action (Unit {0}))
    → ((x : A) → Obeys Evolves (f x))
    → (xs : List A) → Obeys Evolves (for_each f xs)
unfolding for_each
for_each-Evolves f h [] = search task_rules
for_each-Evolves f h (x ∷ xs) = let rest = for_each-Evolves f h xs in search task_rules depth 9

announce_found-Evolves : (r : Result Task) → Obeys Evolves (announce_found r)
unfolding announce_found
announce_found-Evolves (ok t) = search task_rules
announce_found-Evolves (err _) = search task_rules

after_stop-Evolves : (t : Task) (r : Result (Unit {0})) → Obeys Evolves (after_stop t r)
unfolding after_stop
after_stop-Evolves t (ok _) = search (task_rules, get_task-Evolves, announce_found-Evolves)
after_stop-Evolves t (err _) = search task_rules

stop_unless_outdated-Evolves :
    (s : Services) (t : Task) (r : Result Task) → Obeys Evolves (stop_unless_outdated s t r)
unfolding stop_unless_outdated
stop_unless_outdated-Evolves s t (ok current) =
    search (task_rules, stop-Evolves, after_stop-Evolves) depth 8
stop_unless_outdated-Evolves s t (err _) = search task_rules

stop_with_fatal_config-Evolves :
    (s : Services) (t : Task) → Obeys Evolves (stop_with_fatal_config s t)
unfolding stop_with_fatal_config
stop_with_fatal_config-Evolves s t =
    search (task_rules, get_task-Evolves, stop_unless_outdated-Evolves)

after_dispatch-Evolves :
    (s : Services) (t : Task) (r : Result (Unit {0})) → Obeys Evolves (after_dispatch s t r)
unfolding after_dispatch
after_dispatch-Evolves s t (ok _) = search task_rules
after_dispatch-Evolves s t (err x) = search (task_rules, stop_with_fatal_config-Evolves) depth 8

schedule_in_context-Evolves :
    (s : Services) (node : String) (t : Task) → Obeys Evolves (schedule_in_context s node t)
unfolding schedule_in_context
schedule_in_context-Evolves s node t =
    search (task_rules, dispatch-Evolves, after_dispatch-Evolves) depth 8

schedule_once-Evolves :
    (s : Services) (node : String) (t : Task) → Obeys Evolves (schedule_once s node t)
unfolding schedule_once
schedule_once-Evolves s node t = search (task_rules, schedule_in_context-Evolves) depth 8

pub schedule_round-Evolves :
    (s : Services) (node : String) (timeout limit : ℕ)
    → Obeys Evolves (schedule_round s node timeout limit)
unfolding schedule_round find_schedule_tasks
schedule_round-Evolves s node timeout limit =
    search (task_rules, for_each-Evolves, schedule_once-Evolves) depth 9

pub retry_round-Evolves : (s : Services) (limit : ℕ) → Obeys Evolves (retry_round s limit)
unfolding retry_round find_retryable_executions
retry_round-Evolves s limit = search (evolves_rules, for_each-Evolves, retry-Evolves) depth 9

pub reschedule_round-Evolves : (s : Services) (limit : ℕ) → Obeys Evolves (reschedule_round s limit)
unfolding reschedule_round find_reschedulable_executions
reschedule_round-Evolves s limit =
    search (evolves_rules, for_each-Evolves, reschedule-Evolves) depth 9

unless_rejected-Evolves : (r : Result (Unit {0})) → Obeys Evolves (unless_rejected r)
unfolding unless_rejected
unless_rejected-Evolves (ok _) = search task_rules
unless_rejected-Evolves (err rejected) = search task_rules
unless_rejected-Evolves (err _) = search task_rules

interrupt-Evolves : (e : TaskExecution) → Obeys Evolves (interrupt e)
unfolding interrupt
interrupt-Evolves e =
    search (task_rules, request_execution-Evolves, unless_rejected-Evolves) depth 9

pub interrupt_round-Evolves : (limit : ℕ) → Obeys Evolves (interrupt_round limit)
unfolding interrupt_round find_timeout_executions
interrupt_round-Evolves limit = search (evolves_rules, for_each-Evolves, interrupt-Evolves) depth 9
