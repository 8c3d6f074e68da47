-- ===== src/Execution/Diagram/Steps.antt =====
-- The abstract state machine of an execution (the states of internal/domain/task_execution.go).
use etask.Base.{
  ◌≢◌, ◌<◌, sym, ℕ, ◌≤◌, ◌≡◌, refl, sym, subst, ◌∙◌, true, false, List, [], ◌∷◌, ◌++◌, arith,
}
use etask.Domain.Status.{
  ExecutionStatus, waiting_pull, prepare, running, success, failed, cancelled, failed_retryable,
  failed_rescheduled, is_terminal_status,
}
use etask.Domain.Execution.{TaskExecution}
use etask.Store.{World}
use etask.Task.Lock.Rows.{Kept}

-- a failure that is tried again
pub data AwaitsRetry : ExecutionStatus → Type 0 where
  retryable : AwaitsRetry failed_retryable
  rescheduled : AwaitsRetry failed_rescheduled

-- what a run ends in
pub data EndsRun : ExecutionStatus → Type 0 where
  succeeded : EndsRun success
  gave_up : EndsRun failed
  was_cancelled : EndsRun cancelled
  failed_for_now : {s : ExecutionStatus} → AwaitsRetry s → EndsRun s

infix 40 ◌⟶◌ ◌⟶*◌
pub data ◌⟶◌ : ExecutionStatus → ExecutionStatus → Type 0 where
  pulled : waiting_pull ⟶ running
  started : prepare ⟶ running
  restarted : {s : ExecutionStatus} → AwaitsRetry s → s ⟶ running
  dispatched_again : {s : ExecutionStatus} → AwaitsRetry s → s ⟶ prepare
  queued_again : {s : ExecutionStatus} → AwaitsRetry s → s ⟶ waiting_pull
  ended : {s t : ExecutionStatus} → is_terminal_status s ≡ false → EndsRun t → s ⟶ t

pub data ◌⟶*◌ : ExecutionStatus → ExecutionStatus → Type 0 where
  here : {s : ExecutionStatus} → s ⟶* s
  onwards : {s t u : ExecutionStatus} → s ⟶ t → t ⟶* u → s ⟶* u

pub ⟶*-trans : {s t u : ExecutionStatus} → s ⟶* t → t ⟶* u → s ⟶* u
⟶*-trans here r = r
⟶*-trans (onwards e p) r = onwards e (⟶*-trans p r)

-- What becomes of a row: its snapshot stays, its status follows the diagram, and a terminal row
-- stays as it is, to the last field.
pub record Advance (x y : TaskExecution) : Type 0 where
  pub snapshot_kept : y.snapshot ≡ x.snapshot
  pub path : x.status ⟶* y.status
  pub terminal_kept : is_terminal_status x.status ≡ true → y ≡ x

pub Advance-refl : (x : TaskExecution) → Advance x x
Advance-refl x = record { snapshot_kept = refl; path = here; terminal_kept = λ _. refl }

pub Advance-trans : (x y z : TaskExecution) → Advance x y → Advance y z → Advance x z
Advance-trans x y z a b = record {
  snapshot_kept = b.snapshot_kept ∙ a.snapshot_kept;
  path = ⟶*-trans a.path b.path;
  terminal_kept = λ t.
      let e = a.terminal_kept t in
      b.terminal_kept (subst (λ (v : TaskExecution). is_terminal_status v.status ≡ true) (sym e) t)
      ∙ e;
}

-- Every row advances in its place, and new rows come after them.
abbrev pub Grows : List TaskExecution → List TaskExecution → Type 0
Grows [] ys = Unit
Grows (x ∷ xs) [] = ⊥
Grows (x ∷ xs) (y ∷ ys) = Advance x y × Grows xs ys

pub Grows-refl : (xs : List TaskExecution) → Grows xs xs
Grows-refl [] = tt
Grows-refl (x ∷ xs) = (Advance-refl x, Grows-refl xs)

pub Grows-trans : (xs ys zs : List TaskExecution) → Grows xs ys → Grows ys zs → Grows xs zs
Grows-trans [] ys zs g h = tt
Grows-trans (x ∷ xs) [] zs g h = elim g [ ]
Grows-trans (x ∷ xs) (y ∷ ys) [] g h = elim h [ ]
Grows-trans (x ∷ xs) (y ∷ ys) (z ∷ zs) g h =
    (Advance-trans x y z g.0 h.0, Grows-trans xs ys zs g.1 h.1)

pub Grows-append : (xs ys : List TaskExecution) → Grows xs (xs ++ ys)
Grows-append [] ys = tt
Grows-append (x ∷ xs) ys = (Advance-refl x, Grows-append xs ys)

-- No row has the id `i`.
abbrev pub Absent : ℕ → List TaskExecution → Type 0
Absent i [] = Unit
Absent i (x ∷ xs) = (x.id ≢ i) × Absent i xs

-- The ids of a table are distinct, and below the counter of AUTO_INCREMENT.
abbrev pub Keyed : ℕ → List TaskExecution → Type 0
Keyed hi [] = Unit
Keyed hi (x ∷ xs) = (x.id < hi) × Absent x.id xs × Keyed hi xs

Absent-append :
    (i : ℕ) (xs : List TaskExecution) (y : TaskExecution)
    → Absent i xs
    → y.id ≢ i
    → Absent i (xs ++ (y ∷ []))
Absent-append i [] y a h = (h, tt)
Absent-append i (x ∷ xs) y a h = (a.0, Absent-append i xs y a.1 h)

pub Keyed-append :
    (hi hi' : ℕ) (xs : List TaskExecution) (y : TaskExecution)
    → Keyed hi xs
    → hi ≤ hi'
    → y.id < hi'
    → Absent y.id xs
    → Keyed hi' (xs ++ (y ∷ []))
Keyed-append hi hi' [] y k more below a = (below, tt, tt)
Keyed-append hi hi' (x ∷ xs) y k more below a = (
  omega (arith, k.0, more),
  Absent-append x.id xs y k.1 (λ e. a.0 (sym e)),
  Keyed-append hi hi' xs y k.2 more below a.1,
)

-- The tables evolve: the executions along the diagram, from proper keys to proper keys, and the
-- tasks under their versions.
pub record TablesEvolve (w w' : World) : Type 0 where
  pub keyed : Keyed w'.next_execution_id w'.executions
  pub grows : Grows w.executions w'.executions
  pub tasks_kept : Kept w.next_task_id w'.next_task_id w.tasks w'.tasks

abbrev pub IsKeyed : World → Type 0
IsKeyed w = Keyed w.next_execution_id w.executions

abbrev pub Evolves : World → World → Type 0
Evolves w w' = IsKeyed w → TablesEvolve w w'
