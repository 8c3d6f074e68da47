-- ===== src/System/Completing.antt =====
-- The completion consumer (internal/event/complete/consumer.go) keeps the tables evolving.
use etask.Base.{ℕ, ◌≡◌, refl, arith, Bool, true, false, ℤ, pos}
use etask.Errs.{Result, ok, err}
use etask.Domain.Status.{
  ExecutionStatus, non_terminal_statuses, success, failed, cancelled, failed_retryable,
  failed_rescheduled,
}
use etask.Domain.Task.{Task}
use etask.Domain.Execution.{TaskExecution}
use etask.Store.{World, CompleteEvent}
use etask.Store.Action.{try, throw, ◌>>=◌}
use etask.Store.Obeys.{Obeys, Obeys-bind, Obeys-bind_at, Obeys-throw}
use etask.Execution.Diagram.Steps.{Evolves, EndsRun, succeeded, gave_up, was_cancelled}
use etask.Execution.Diagram.Rules.{Evolves-Evolution}
use etask.Execution.Diagram.Statements.{evolves_rules, get_by_id-Evolves, non_terminal-permits}
use etask.Execution.Service.Lifecycle.{schedule_result-Evolves}
use etask.Execution.Completion.{
  completion_state, send_notice, notice_for, notify, move_on, settle_task, final_report, finish,
  handle_task,
}
use etask.Task.Table.{get_task}
use etask.Task.Service.{update_next_time}
use etask.Task.Lock.Statements.{task_rules, get_task-Evolves}
use etask.System.Leases.{update_next_time-Evolves, release_task-Evolves}

notice_for-Evolves :
    (i : ℕ) (status : ExecutionStatus) (r : Result TaskExecution)
    → Obeys Evolves (notice_for i status r)
unfolding notice_for
notice_for-Evolves i status (ok e) = search task_rules depth 8
notice_for-Evolves i status (err _) = search task_rules

send_notice-Evolves :
    (i : ℕ) (status : ExecutionStatus) (b : Bool) → Obeys Evolves (send_notice i status b)
unfolding send_notice
send_notice-Evolves i status false = search task_rules
send_notice-Evolves i status true =
    search (task_rules, get_by_id-Evolves, notice_for-Evolves) depth 8

notify-Evolves :
    (ev : CompleteEvent) (status : ExecutionStatus) (r : Result Task)
    → Obeys Evolves (notify ev status r)
unfolding notify
notify-Evolves ev status (ok t) = search (task_rules, send_notice-Evolves) depth 8
notify-Evolves ev status (err _) = search task_rules

settle_task-Evolves : (ev : CompleteEvent) (t : Task) → Obeys Evolves (settle_task ev t)
unfolding settle_task
settle_task-Evolves ev t = search (task_rules, release_task-Evolves) depth 8

final_of :
    (final : ExecutionStatus × ℤ) (r : Result (ExecutionStatus × ℤ)) (s : ExecutionStatus) (p : ℤ)
    → r ≡ ok (s, p)
    → r ≡ ok final
    → final.0 ≡ s
final_of final r s p e h = cc

pub completion_state-EndsRun :
    (s : ExecutionStatus) (final : ExecutionStatus × ℤ)
    → completion_state s ≡ ok final
    → EndsRun final.0
unfolding completion_state
completion_state-EndsRun success final h =
    rw (final_of final (completion_state success) success (pos 100) refl h) succeeded
completion_state-EndsRun cancelled final h =
    rw (final_of final (completion_state cancelled) cancelled (pos 0) refl h) was_cancelled
completion_state-EndsRun failed final h =
    rw (final_of final (completion_state failed) failed (pos 0) refl h) gave_up
completion_state-EndsRun failed_retryable final h =
    rw (final_of final (completion_state failed_retryable) failed (pos 0) refl h) gave_up
completion_state-EndsRun failed_rescheduled final h =
    rw (final_of final (completion_state failed_rescheduled) failed (pos 0) refl h) gave_up
completion_state-EndsRun _ final h = absurd (ground arith)

threw : {A : Type 0} (r : Result A) (w : World) (a : A) → (throw r w).0 ≡ ok a → r ≡ ok a
unfolding throw
threw r w a h = h

module _ (others : ℕ → World → World) (h : (k : ℕ) (w : World) → Evolves w (others k w)) where
  next_time-Evolves : (i : ℕ) → Obeys Evolves (update_next_time others i)
  next_time-Evolves i = update_next_time-Evolves others h i

  pub move_on-Evolves :
      (ev : CompleteEvent) (status : ExecutionStatus) → Obeys Evolves (move_on others ev status)
  unfolding move_on
  move_on-Evolves ev status =
      Obeys-bind Evolves-Evolution (try (get_task ev.task_id)) _
        (search (task_rules, get_task-Evolves))
        (λ current.
          Obeys-bind Evolves-Evolution (notify ev status current) _
            (notify-Evolves ev status current)
            (λ _.
              Obeys-bind Evolves-Evolution (update_next_time others ev.task_id) (settle_task ev)
                (next_time-Evolves ev.task_id) (settle_task-Evolves ev)))

  finish-Evolves :
      (ev : CompleteEvent) (final : ExecutionStatus × ℤ)
      → EndsRun final.0
      → Obeys Evolves (finish others ev final)
  unfolding finish
  finish-Evolves ev final ends =
      search
        (
          evolves_rules,
          move_on-Evolves,
          λ (now : ℕ).
              schedule_result-Evolves ev.exec_id non_terminal_statuses (final_report now ev final)
                ev.task_result (non_terminal-permits final.0 ends),
        )
        depth 10

  throw_then :
      (ev : CompleteEvent) (r : Result (ExecutionStatus × ℤ))
      → ((final : ExecutionStatus × ℤ) → r ≡ ok final → EndsRun final.0)
      → Obeys Evolves (throw r >>= finish others ev)
  throw_then ev r ends = record {
    at = λ w.
        Obeys-bind_at Evolves-Evolution (throw r) (finish others ev) w
          ((Obeys-throw Evolves-Evolution r).at w)
          (λ final got.
            (finish-Evolves ev final (ends final (threw r w final got))).at (throw r w).1);
  }

  pub handle_task-Evolves : (ev : CompleteEvent) → Obeys Evolves (handle_task others ev)
  unfolding handle_task
  handle_task-Evolves ev =
      throw_then ev (completion_state ev.exec_status) (completion_state-EndsRun ev.exec_status)
