-- ===== src/System/Safety.antt =====
-- What every run of the system keeps, whoever does what in whatever order and whatever fails.
use etask.Base.{sym, ◌∙◌, ℕ, ◌≤◌, ◌≡◌, refl, ap, subst, true, List, [], ◌∷◌, Member, inl, inr}
use etask.Domain.Status.{is_terminal_status}
use etask.Domain.Execution.{TaskExecution}
use etask.Domain.Task.{Task}
use etask.Store.{World}
use etask.Execution.Diagram.Steps.{Advance, Grows, Keyed, IsKeyed, TablesEvolve, Evolves}
use etask.Execution.Diagram.Rules.{Member-Absent}
use etask.Task.Lock.Rows.{Kept-Locked, Kept-KeyedTasks, KeyedTasks, Locked}
use etask.System.Runs.{◌⇝◌, ⇝-Evolves}

-- The tables have proper keys.
pub record IsSound (w : World) : Type 0 where
  pub executions_keyed : IsKeyed w
  pub tasks_keyed : KeyedTasks 0 w.next_task_id w.tasks

pub Grows-Later :
    (e : TaskExecution) (xs ys : List TaskExecution)
    → Grows xs ys
    → Member e xs
    → (e' : TaskExecution) × Member e' ys × Advance e e'
Grows-Later e [] ys g m = elim m [ ]
Grows-Later e (x ∷ xs) [] g m = elim g [ ]
Grows-Later e (x ∷ xs) (y ∷ ys) g (inl p) = (y, inl refl, rw p g.0)
Grows-Later e (x ∷ xs) (y ∷ ys) g (inr m) = let l = Grows-Later e xs ys g.1 m in (l.0, inr l.1, l.2)

pub Keyed-unique :
    (hi : ℕ) (e e' : TaskExecution) (xs : List TaskExecution)
    → Keyed hi xs
    → Member e xs
    → Member e' xs
    → e.id ≡ e'.id
    → e ≡ e'
Keyed-unique hi e e' [] k m m' h = elim m [ ]
Keyed-unique hi e e' (x ∷ xs) k (inl p) (inl q) h = cc
Keyed-unique hi e e' (x ∷ xs) k (inl p) (inr q) h =
    absurd (Member-Absent x.id e' xs k.1 q (sym h ∙ ap (λ (v : TaskExecution). v.id) p))
Keyed-unique hi e e' (x ∷ xs) k (inr p) (inl q) h =
    absurd (Member-Absent x.id e xs k.1 p (h ∙ ap (λ (v : TaskExecution). v.id) q))
Keyed-unique hi e e' (x ∷ xs) k (inr p) (inr q) h = Keyed-unique hi e e' xs k.2 p q h

pub Evolves-IsSound : (u v : World) → IsSound u → Evolves u v → IsSound v
Evolves-IsSound u v sound h =
    let e = h sound.executions_keyed in
    record {
      executions_keyed = e.keyed;
      tasks_keyed =
          Kept-KeyedTasks 0 u.next_task_id v.next_task_id u.tasks v.tasks sound.tasks_keyed
            e.tasks_kept;
    }

module _ (u v : World) (run : u ⇝ v) (sound : IsSound u) where
  evolved : TablesEvolve u v
  evolved = ⇝-Evolves u v run sound.executions_keyed

  pub run-IsSound : IsSound v
  run-IsSound = Evolves-IsSound u v sound (⇝-Evolves u v run)

  -- In every run from sound tables, whatever is done by whom in which order and whatever fails, an
  -- execution that is in a terminal state stays in the table as it was, to the last field.
  pub terminal_executions_stand :
      (e : TaskExecution)
      → Member e u.executions
      → is_terminal_status e.status ≡ true
      → Member e v.executions
  terminal_executions_stand e m t =
      let l = Grows-Later e u.executions v.executions evolved.grows m in
      subst (λ x. Member x v.executions) (l.2.terminal_kept t) l.1

  -- In every run from sound tables no execution is lost, and what was copied into it when it was
  -- created (its task, its source, its request id, its route, its configuration) stays as it was.
  pub executions_keep_snapshot :
      (e : TaskExecution)
      → Member e u.executions
      → (e' : TaskExecution) × Member e' v.executions × (e'.snapshot ≡ e.snapshot)
  executions_keep_snapshot e m =
      let l = Grows-Later e u.executions v.executions evolved.grows m in
      (l.0, l.1, l.2.snapshot_kept)

  became : (t t' : Task) → Member t u.tasks → Member t' v.tasks → t.id ≡ t'.id → Locked t t'
  became t t' m m' e =
      Kept-Locked 0 u.next_task_id v.next_task_id t t' u.tasks v.tasks sound.tasks_keyed
        evolved.tasks_kept m m' e

  -- In every run from sound tables the version of a task never falls.
  pub version_never_falls :
      (t t' : Task) → Member t u.tasks → Member t' v.tasks → t.id ≡ t'.id → t.version ≤ t'.version
  version_never_falls t t' m m' e = (became t t' m m' e).version_grows

  -- In every run from sound tables a task that still has the version it had is the same, but for the
  -- dispatch mode and the time of the last write.
  pub version_locks_task :
      (t t' : Task)
      → Member t u.tasks
      → Member t' v.tasks
      → t.id ≡ t'.id
      → t'.version ≡ t.version
      → t' ≡ record t { exec_mode = t'.exec_mode; utime = t'.utime }
  version_locks_task t t' m m' e same = (became t t' m m' e).version_locks same
