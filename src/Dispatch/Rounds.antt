-- ===== src/Dispatch/Rounds.antt =====
-- internal/service/scheduler/scheduler.go and internal/compensator: one round of each loop. The
-- endless loops around the rounds, with their waiting, are left out.
use etask.Base.{
  ℕ, suc, String, Bool, true, false, not, ◌&&◌, ◌||◌, List, [], ◌∷◌, ◌==◌, if◌then◌else◌,
}
use etask.Errs.{
  Err, Result, ok, err, rejected, pool_not_found, pool_not_allowed, program_source_unavailable,
}
use etask.Domain.Execution.{TaskExecution}
use etask.Domain.Task.{Task, is_inactive, is_completed}
use etask.Store.Action.{Action, pure, fail, try, as_tenant, ◌>>=◌, ◌>>◌}
use etask.Execution.Queries.{
  find_retryable_executions, find_reschedulable_executions, find_timeout_executions,
}
use etask.Task.Table.{get_task}
use etask.Task.Changes.{find_schedule_tasks}
use etask.Task.Service.{stop, announce}
use etask.Cancellation.Delivery.{request_execution}
use etask.Dispatch.Routing.{Services}
use etask.Dispatch.Dispatcher.{dispatch, retry, reschedule}

-- A loop over a batch that logs what fails and goes on: how many items went well.
unfoldable pub for_each : {A : Type 0} → (A → Action (Unit {0})) → List A → Action ℕ
for_each f [] = pure 0
for_each f (x ∷ xs) = do
  done ← try (f x)
  successes ← for_each f xs
  pure (elim done [ ok _ ↦ suc successes | err _ ↦ successes ])

-- `isUnrecoverableTaskConfigError`
abbrev pub is_unrecoverable : Err → Bool
is_unrecoverable program_source_unavailable = true
is_unrecoverable pool_not_found = true
is_unrecoverable pool_not_allowed = true
is_unrecoverable _ = false

-- The task was stopped or finished, or edited since it was scheduled.
abbrev pub is_outdated : Services → Task → Task → Bool
is_outdated s scheduled current =
    is_inactive current.status
    || is_completed current.status
    || not (s.same_program current scheduled)
    || (not (scheduled.version == 0) && not (current.version == scheduled.version))

unfoldable pub announce_found : Result Task → Action (Unit {0})
announce_found (ok t) = announce t
announce_found (err _) = pure tt

unfoldable pub after_stop : Task → Result (Unit {0}) → Action (Unit {0})
after_stop t (err _) = pure tt
after_stop t (ok _) = do stopped ← try (get_task t.id); announce_found stopped

unfoldable pub stop_unless_outdated : Services → Task → Result Task → Action (Unit {0})
stop_unless_outdated s t (err _) = pure tt
stop_unless_outdated s t (ok current) =
    if is_outdated s t current then pure tt else do stopped ← try (stop t.id); after_stop t stopped

-- `stopTaskWithFatalConfig`
unfoldable pub stop_with_fatal_config : Services → Task → Action (Unit {0})
stop_with_fatal_config s t = do current ← try (get_task t.id); stop_unless_outdated s t current

unfoldable pub after_dispatch : Services → Task → Result (Unit {0}) → Action (Unit {0})
after_dispatch s t (ok _) = pure tt
after_dispatch s t (err x) =
    if is_unrecoverable x then (do stop_with_fatal_config s t; fail x) else fail x

unfoldable pub schedule_in_context : Services → String → Task → Action (Unit {0})
schedule_in_context s node t = do done ← try (dispatch s node t); after_dispatch s t done

-- `scheduleOnce` under `taskContext`
unfoldable pub schedule_once : Services → String → Task → Action (Unit {0})
schedule_once s node t =
    if t.tenant_id == 0
    then schedule_in_context s node t
    else as_tenant t.tenant_id (schedule_in_context s node t)

-- One turn of `scheduleLoop`: the time limit on a lease, the size of a batch.
unfoldable pub schedule_round : Services → String → ℕ → ℕ → Action ℕ
schedule_round s node timeout limit = do
  tasks ← find_schedule_tasks timeout limit
  for_each (schedule_once s node) tasks

-- `retry` of RetryCompensator
unfoldable pub retry_round : Services → ℕ → Action ℕ
retry_round s limit = do es ← find_retryable_executions limit; for_each (retry s) es

-- `reschedule` of RescheduleCompensator
unfoldable pub reschedule_round : Services → ℕ → Action ℕ
reschedule_round s limit = do es ← find_reschedulable_executions limit; for_each (reschedule s) es

unfoldable pub unless_rejected : Result (Unit {0}) → Action (Unit {0})
unless_rejected (ok _) = pure tt
unless_rejected (err rejected) = pure tt
unless_rejected (err x) = fail x

-- `interruptTaskExecution`; the reason reads "任务执行超时"
unfoldable pub interrupt : TaskExecution → Action (Unit {0})
interrupt e =
    as_tenant e.tenant_id
      (do requested ← try (request_execution e.id "任务执行超时"); unless_rejected requested)

-- `interruptTimeoutTasks`
unfoldable pub interrupt_round : ℕ → Action ℕ
interrupt_round limit = do es ← find_timeout_executions limit; for_each interrupt es
