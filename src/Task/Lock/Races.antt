-- ===== src/Task/Lock/Races.antt =====
-- What the success of a guarded write of a task means, and who wins when several nodes try
-- (`Acquire` and `Release` of internal/repository/dao/task.go).
use etask.Base.{
  ℕ, ◌≡◌, refl, sym, ap, ◌∙◌, arith, Bool, true, false, List, Option, none, some, Member, ◌==◌,
  ==→eq, if◌then◌else◌, count_where, first_where, update_where, count_where-Member,
  update_where-Member, first_where-Member,
}
use etask.Errs.{Err, Result, ok, err, record_not_found}
use etask.Domain.Task.{Task}
use etask.Store.{World}
use etask.Store.Action.{Action, throw, fail, gets, ◌>>=◌}
use etask.Task.Lock.Rows.{Locked, KeyedTasks, KeyedTasks-unique, Kept-KeyedTasks, Kept-update_where}
use etask.Store.Inversion.{bind-ok, statement-ok, transaction-ok}
use etask.Task.Table.{
  update_tasks, change_tasks, select_tasks, get_task, task_or, write_and_read, task_id_is,
}

task_or-ok :
    (found : Option Task) (t : Task) → task_or (err record_not_found) found ≡ ok t → found ≡ some t
unfolding task_or
task_or-ok none t h = absurd (ground arith)
task_or-ok (some x) t h = cc

paired :
    {A : Type 0} (a b : Result A) (v w : World)
    → a ≡ b
    → v ≡ w
    → ◌≡◌ {A = Result A × World} (a, v) (b, w)
paired a b v w h k = cc

option_of : (a b : Option Task) → ok a ≡ ok b → a ≡ b
option_of a b h = cc

pub get_task-ok :
    (i : ℕ) (w : World) (t : Task)
    → (get_task i w).0 ≡ ok t
    → (rest : List Bool) × (first_where (task_id_is i w) w.tasks ≡ some t)
      × (get_task i w ≡ (ok t, record w { faults = rest }))
unfolding get_task select_tasks gets throw
get_task-ok i w t h =
    let read : Action (Option Task) = select_tasks (λ v. first_where (task_id_is i v) v.tasks) in
    let split = bind-ok read (λ found. throw (task_or (err record_not_found) found)) w t h in
    let done = statement-ok (gets (λ v. first_where (task_id_is i v) v.tasks)) w split.0 split.1 in
    let found : ok (first_where (task_id_is i w) w.tasks) ≡ ok split.0 =
      ap (λ r. r.0) (sym done.1) ∙ split.1 in
    let answer : task_or (err record_not_found) split.0 ≡ ok t = ap (λ r. r.0) (sym split.2) ∙ h in
    let is : split.0 ≡ some t = task_or-ok split.0 t answer in
    (
      done.0,
      option_of (first_where (task_id_is i w) w.tasks) split.0 found ∙ is,
      split.2
          ∙ paired (task_or (err record_not_found) split.0) (ok t) (read w).1
              (record w { faults = done.0 }) answer (ap (λ r. r.1) done.1),
    )

count_of : (a b : ℕ) → ok a ≡ ok b → a ≡ b
count_of a b h = cc

met :
    (b : Bool) (missed : Err) (i : ℕ) (v : World) (t : Task)
    → ((if b then fail missed else get_task i) v).0 ≡ ok t
    → (b ≡ false) × ((if b then fail missed else get_task i) v ≡ get_task i v)
unfolding fail
met true missed i v t h = absurd (ground arith)
met false missed i v t h = (refl, refl)

-- A write that is guarded by `p` and succeeds: it met a row, it wrote where the guard says, and it
-- returns the row of that id as it now stands.
pub write_and_read-ok :
    (i : ℕ) (p : World → Task → Bool) (f : Task → Task) (missed : Err) (w : World) (t : Task)
    → ((rest : List Bool) → p (record w { faults = rest }) ≡ p w)
    → (write_and_read i p f missed w).0 ≡ ok t
    → (rest : List Bool) × ((count_where (p w) w.tasks == 0) ≡ false)
      × (first_where (task_id_is i w) (update_where (p w) f w.tasks) ≡ some t)
      × (write_and_read i p f missed w
          ≡ (ok t, record w { tasks = update_where (p w) f w.tasks; faults = rest }))
unfolding write_and_read update_tasks
write_and_read-ok i p f missed w t same h =
    let after : ℕ → Action Task = λ n. if n == 0 then fail missed else get_task i in
    let body : Action Task = update_tasks p f >>= after in
    let whole = transaction-ok body w t h in
    let split = bind-ok (update_tasks p f) after w t whole.1 in
    let done = statement-ok (change_tasks p f) w split.0 split.1 in
    let c = count_where (p w) w.tasks in
    let v : World = record w { faults = done.0; tasks = update_where (p w) f w.tasks } in
    let landed : update_tasks p f w ≡ (ok c, v) = done.1 ∙ rw (same done.0) refl in
    let counted = count_of split.0 c (sym split.1 ∙ ap (λ r. r.0) landed) in
    let moved : body w ≡ after c v = split.2 ∙ rw (counted, landed) refl in
    let m = met (c == 0) missed i v t (ap (λ r. r.0) (sym moved) ∙ whole.1) in
    let got = get_task-ok i v t (ap (λ r. r.0) (sym (moved ∙ m.1)) ∙ whole.1) in
    let left : (body w).1 ≡ record v { faults = got.0 } = ap (λ r. r.1) (moved ∙ m.1 ∙ got.2) in
    (whole.0, m.0, got.1, whole.2 ∙ ap (λ u. (ok t, record u { faults = whole.0 })) left)

-- Where the ids are proper, the row that was met and the row that is returned are one.
pub write_and_read-writes :
    (i : ℕ) (p : World → Task → Bool) (f : Task → Task) (missed : Err) (w : World) (t : Task)
    → ((rest : List Bool) → p (record w { faults = rest }) ≡ p w)
    → ((x : Task) → p w x ≡ true → x.id ≡ i)
    → ((x : Task) → Locked x (f x))
    → KeyedTasks 0 w.next_task_id w.tasks
    → (write_and_read i p f missed w).0 ≡ ok t
    → (x : Task) × Member x w.tasks
      × (p w x ≡ true)
      × (t ≡ f x)
      × (rest : List Bool) × (write_and_read i p f missed w
          ≡ (ok t, record w { tasks = update_where (p w) f w.tasks; faults = rest }))
write_and_read-writes i p f missed w t same named locked k h =
    let got = write_and_read-ok i p f missed w t same h in
    let hit = count_where-Member (p w) w.tasks got.1 in
    let read = first_where-Member (task_id_is i w) t (update_where (p w) f w.tasks) got.2 in
    let keyed =
      Kept-KeyedTasks 0 w.next_task_id w.next_task_id w.tasks (update_where (p w) f w.tasks) k
        (Kept-update_where w.next_task_id (p w) f locked w.tasks) in
    let written = update_where-Member (p w) f hit.0 w.tasks hit.1 hit.2 in
    let ids : t.id ≡ (f hit.0).id =
      ==→eq t.id i (ground arith) ∙ sym ((locked hit.0).same_id ∙ named hit.0 hit.2) in
    (
      hit.0,
      hit.1,
      hit.2,
      KeyedTasks-unique 0 w.next_task_id t (f hit.0) (update_where (p w) f w.tasks) keyed read.0
          written ids,
      got.0,
      got.3,
    )
