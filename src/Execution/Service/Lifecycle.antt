-- ===== src/Execution/Service/Lifecycle.antt =====
-- The service keeps the executions within the diagram, whatever is reported, however stale the
-- record that it read, and whichever statements fail.
use etask.Base.{
  ℕ, ◌+◌, ◌≡◌, refl, true, false, List, [], ◌∷◌, Option, none, some, String, if◌then◌else◌,
}
use etask.Errs.{Result, ok, err, max_retries_exceeded}
use etask.Domain.Status.{
  ExecutionStatus, ExecutionSource, waiting_pull, running, success, failed, failed_retryable,
  failed_rescheduled, cancelled, source_task, source_codebook_preview, source_workflow,
  is_terminal_status,
}
use etask.Domain.Execution.{TaskExecution, ExecutionState, RetryConfig}
use etask.Store.{execution_changed}
use etask.Store.Action.{try, emit, pure, ◌>>◌}
use etask.Store.Obeys.{Obeys, Obeys-if, Obeys-bind, Obeys-try, Obeys-pure}
use etask.Execution.Table.{get_by_id}
use etask.Execution.Updates.{Report, update_schedule_result}
use etask.Execution.Service.{
  requeue_pull, report_running, report_progress, schedule_result, record_state, report_of,
  retry_with, with_config, update_retry_state, send_completed_event, on_running, give_up,
  task_state, update_preview_state, update_workflow_state, by_source, apply_state, or_not_found,
  update_state, as_failed, with_reschedule,
}
use etask.Execution.Diagram.Steps.{
  EndsRun, succeeded, gave_up, was_cancelled, failed_for_now, retryable, rescheduled, queued_again,
  ended, Evolves,
}
use etask.Execution.Diagram.Rules.{Evolves-Evolution}
use etask.Execution.Diagram.Statements.{
  evolves_rules, AllPermit, update_status-Evolves, update_retry_result-Evolves,
  update_schedule_result-Evolves, set_running_state-Evolves, update_progress-Evolves,
  get_by_id-Evolves,
}

ruleset statement_rules =
    (evolves_rules, set_running_state-Evolves, update_progress-Evolves, get_by_id-Evolves)

requeue_pull-permits : AllPermit (failed_retryable ∷ failed_rescheduled ∷ []) waiting_pull
unfolding is_terminal_status
requeue_pull-permits = (
  record { open_row = refl; step = queued_again retryable },
  (record { open_row = refl; step = queued_again rescheduled }, tt),
)

pub requeue_pull-Evolves : (i : ℕ) → Obeys Evolves (requeue_pull i)
unfolding requeue_pull
requeue_pull-Evolves i = search (
  evolves_rules,
  update_status-Evolves i (failed_retryable ∷ failed_rescheduled ∷ []) waiting_pull
      requeue_pull-permits,
)

on_running-Evolves : (e : TaskExecution) (s : ExecutionState) → Obeys Evolves (on_running e s)
unfolding on_running report_progress report_running
on_running-Evolves e s = search statement_rules depth 8

pub schedule_result-Evolves :
    (i : ℕ) (expected : List ExecutionStatus) (r : Report) (result : String)
    → AllPermit expected r.status
    → Obeys Evolves (schedule_result i expected r result)
unfolding schedule_result
schedule_result-Evolves i expected r result a =
    Obeys-bind Evolves-Evolution (update_schedule_result i expected r result)
      (λ updated.
        if updated then emit (execution_changed i) >> pure true else get_by_id i >> pure false)
      (update_schedule_result-Evolves i expected r result a)
      (λ updated. search statement_rules depth 9)

record_state-Evolves :
    (e : TaskExecution) (s : ExecutionState)
    → is_terminal_status e.status ≡ false
    → EndsRun s.status
    → Obeys Evolves (record_state e s)
unfolding record_state
record_state-Evolves e s opens ends =
    search
      (
        statement_rules,
        λ (now : ℕ).
            schedule_result-Evolves s.id (e.status ∷ []) (report_of now e s) s.task_result
              (record { open_row = opens; step = ended opens ends }, tt),
      )
      depth 9

send_completed_event-Evolves :
    (s : ExecutionState) (e : TaskExecution) → Obeys Evolves (send_completed_event s e)
unfolding send_completed_event
send_completed_event-Evolves s e = search evolves_rules depth 7

retry_with-Evolves :
    (e : TaskExecution) (s : ExecutionState) (c : RetryConfig)
    → is_terminal_status e.status ≡ false
    → s.status ≡ failed_retryable
    → Obeys Evolves (retry_with e s c)
unfolding retry_with
retry_with-Evolves e s c opens r =
    search
      (
        statement_rules,
        λ (now next : ℕ).
            update_retry_result-Evolves s.id (e.retry_count + 1) next e.status (report_of now e s)
              (record { open_row = opens; step = ended opens (rw r (failed_for_now retryable)) }),
      )
      depth 12

update_retry_state-Evolves :
    (e : TaskExecution) (s : ExecutionState) (c : Option RetryConfig)
    → is_terminal_status e.status ≡ false
    → s.status ≡ failed_retryable
    → Obeys Evolves (with_config e s c)
unfolding with_config
update_retry_state-Evolves e s none opens r = search evolves_rules
update_retry_state-Evolves e s (some c) opens r = retry_with-Evolves e s c opens r

give_up-Evolves :
    (e : TaskExecution) (s : ExecutionState) (r : Result (Unit {0})) → Obeys Evolves (give_up e s r)
unfolding give_up
give_up-Evolves e s (ok _) = search evolves_rules
give_up-Evolves e s (err max_retries_exceeded) =
    search (evolves_rules, send_completed_event-Evolves)
give_up-Evolves e s (err _) = search evolves_rules

module _ (e : TaskExecution) (s : ExecutionState)
    (opens : is_terminal_status e.status ≡ false) where
  task_state-Evolves : (t : ExecutionStatus) → s.status ≡ t → Obeys Evolves (task_state t e s)
  unfolding task_state update_retry_state
  task_state-Evolves running h = on_running-Evolves e s
  task_state-Evolves failed_retryable h =
      Obeys-bind Evolves-Evolution (try (update_retry_state e s)) (give_up e s)
        (Obeys-try (update_retry_state e s) (update_retry_state-Evolves e s e.retry_config opens h))
        (give_up-Evolves e s)
  task_state-Evolves failed_rescheduled h =
      record_state-Evolves (with_reschedule e s) s opens (rw h (failed_for_now rescheduled))
  task_state-Evolves success h = send_completed_event-Evolves s e
  task_state-Evolves failed h = send_completed_event-Evolves s e
  task_state-Evolves cancelled h = send_completed_event-Evolves s e
  task_state-Evolves _ h = search evolves_rules

  update_preview_state-Evolves :
      (t : ExecutionStatus) → s.status ≡ t → Obeys Evolves (update_preview_state t e s)
  unfolding update_preview_state
  update_preview_state-Evolves running h = on_running-Evolves e s
  update_preview_state-Evolves success h = record_state-Evolves e s opens (rw h succeeded)
  update_preview_state-Evolves failed h = record_state-Evolves e s opens (rw h gave_up)
  update_preview_state-Evolves cancelled h = record_state-Evolves e s opens (rw h was_cancelled)
  update_preview_state-Evolves failed_retryable h =
      record_state-Evolves e (as_failed s) opens gave_up
  update_preview_state-Evolves failed_rescheduled h =
      record_state-Evolves e (as_failed s) opens gave_up
  update_preview_state-Evolves _ h = search evolves_rules

  update_workflow_state-Evolves :
      (t : ExecutionStatus) → Obeys Evolves (update_workflow_state t e s)
  unfolding update_workflow_state
  update_workflow_state-Evolves running = on_running-Evolves e s
  update_workflow_state-Evolves success = send_completed_event-Evolves s e
  update_workflow_state-Evolves failed = send_completed_event-Evolves s e
  update_workflow_state-Evolves cancelled = send_completed_event-Evolves s e
  update_workflow_state-Evolves failed_retryable = send_completed_event-Evolves (as_failed s) e
  update_workflow_state-Evolves failed_rescheduled = send_completed_event-Evolves (as_failed s) e
  update_workflow_state-Evolves _ = search evolves_rules

  by_source-Evolves : (source : ExecutionSource) → Obeys Evolves (by_source source e s)
  by_source-Evolves source_codebook_preview = update_preview_state-Evolves s.status refl
  by_source-Evolves source_workflow = update_workflow_state-Evolves s.status
  by_source-Evolves source_task = task_state-Evolves s.status refl

-- Whatever record the service read before, the executions stay within the diagram.
pub apply_state-Evolves : (e : TaskExecution) (s : ExecutionState) → Obeys Evolves (apply_state e s)
unfolding apply_state
apply_state-Evolves e s =
    Obeys-if (is_terminal_status e.status) (pure tt) (by_source e.source e s)
      (λ _. Obeys-pure Evolves-Evolution tt) (λ opens. by_source-Evolves e s opens e.source)

or_not_found-Evolves :
    (s : ExecutionState) (r : Result TaskExecution) → Obeys Evolves (or_not_found s r)
unfolding or_not_found
or_not_found-Evolves s (ok e) = apply_state-Evolves e s
or_not_found-Evolves s (err _) = search evolves_rules

pub update_state-Evolves : (s : ExecutionState) → Obeys Evolves (update_state s)
unfolding update_state
update_state-Evolves s = search (statement_rules, or_not_found-Evolves)
