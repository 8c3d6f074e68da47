-- ===== src/System/Frame.antt =====
-- A statement on the cancellations leaves the executions and the tasks alone.
use etask.Base.{String, Bool, any_where, Bool-cases, inl, inr}
use etask.Domain.Cancellation.{ExecutionCancellation}
use etask.Store.{World}
use etask.Store.Obeys.{Obeys, Obeys-statement}
use etask.Execution.Diagram.Steps.{Evolves, Grows-refl}
use etask.Execution.Diagram.Rules.{Evolves-Evolution}
use etask.Task.Lock.Rows.{Kept-refl}
use etask.Cancellation.Requests.{
  change_cancellations, update_cancellations, insert_cancellation, same_key,
}

module _ (p : World → ExecutionCancellation → Bool)
    (f : ExecutionCancellation → ExecutionCancellation) where
  change_cancellations-Evolves : Obeys Evolves (change_cancellations p f)
  change_cancellations-Evolves = record {
    at = λ w k. record {
      keyed = k;
      grows = Grows-refl w.executions;
      tasks_kept = Kept-refl w.next_task_id w.tasks;
    };
  }

  pub update_cancellations-Evolves : Obeys Evolves (update_cancellations p f)
  unfolding update_cancellations
  update_cancellations-Evolves =
      Obeys-statement Evolves-Evolution (change_cancellations p f) change_cancellations-Evolves

insert_cancellation-at :
    (request reason : String) (w : World) → Evolves w (insert_cancellation request reason w).1
insert_cancellation-at request reason w k =
    elim (Bool-cases (any_where (same_key w.tenant request) w.cancellations)) [
      | inl taken ↦ rw taken (record {
        keyed = k;
        grows = Grows-refl w.executions;
        tasks_kept = Kept-refl w.next_task_id w.tasks;
      })
      | inr free ↦ rw free (record {
        keyed = k;
        grows = Grows-refl w.executions;
        tasks_kept = Kept-refl w.next_task_id w.tasks;
      })
    ]

pub insert_cancellation-Evolves :
    (request reason : String) → Obeys Evolves (insert_cancellation request reason)
insert_cancellation-Evolves request reason = record { at = insert_cancellation-at request reason }
