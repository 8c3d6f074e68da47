-- ===== src/Execution/Diagram/Rules.antt =====
-- A statement that only updates rows along the diagram, or appends one, evolves the executions.
use etask.Base.{
  ◌≢◌, sym, ◌∙◌, ℕ, ◌≡◌, refl, sym, ap, inl, inr, Bool, true, false, List, [], ◌∷◌, ==→eq,
  if◌then◌else◌, update_where, Member,
}
use etask.Domain.Execution.{TaskExecution}
use etask.Store.{World}
use etask.Store.Action.{statement, gets, round_trip}
use etask.Errs.{ok}
use etask.Task.Lock.Rows.{Kept-refl, Kept-trans}
use etask.Store.Obeys.{Evolution, Obeys, Obeys-statement, obeys_rules}
use etask.Execution.Table.{has_id, update_executions, change_rows, select_executions}
use etask.Execution.Diagram.Steps.{
  Advance, Advance-refl, Grows, Grows-refl, Grows-trans, Keyed, Absent, Evolves,
}

-- An update that touches a row only where it may.
module _ (p : TaskExecution → Bool) (f : TaskExecution → TaskExecution) where
  touched :
      (x : TaskExecution) → (p x ≡ true → Advance x (f x)) → Advance x (if p x then f x else x)
  touched x h = go (p x) h
    where
      go : (b : Bool) → (b ≡ true → Advance x (f x)) → Advance x (if b then f x else x)
      go true h' = h' refl
      go false h' = Advance-refl x

  pub Grows-update_where :
      (xs : List TaskExecution)
      → ((x : TaskExecution) → p x ≡ true → Advance x (f x))
      → Grows xs (update_where p f xs)
  Grows-update_where [] h = tt
  Grows-update_where (x ∷ xs) h = (touched x (h x), Grows-update_where xs h)

-- Rows that advance keep their ids, so the keys stay proper.
Grows-Absent :
    (i : ℕ) (p : TaskExecution → Bool) (f : TaskExecution → TaskExecution) (xs : List TaskExecution)
    → Absent i xs
    → Grows xs (update_where p f xs)
    → Absent i (update_where p f xs)
Grows-Absent i p f [] a g = tt
Grows-Absent i p f (x ∷ xs) a g =
    let ids = ap (λ s. s.id) g.0.snapshot_kept in
    (λ e. a.0 (sym ids ∙ e), Grows-Absent i p f xs a.1 g.1)

pub Grows-Keyed :
    (hi : ℕ) (p : TaskExecution → Bool) (f : TaskExecution → TaskExecution)
    (xs : List TaskExecution)
    → Keyed hi xs
    → Grows xs (update_where p f xs)
    → Keyed hi (update_where p f xs)
Grows-Keyed hi p f [] k g = k
Grows-Keyed hi p f (x ∷ xs) k g =
    let y = if p x then f x else x in
    let ids : y.id ≡ x.id = ap (λ s. s.id) g.0.snapshot_kept in
    (rw ids k.0, rw ids (Grows-Absent x.id p f xs k.1 g.1), Grows-Keyed hi p f xs k.2 g.1)

-- Where one id stands once, an update by id touches the one row that holds it.
Absent-untouched :
    (i : ℕ) (f : TaskExecution → TaskExecution) (xs : List TaskExecution)
    → Absent i xs
    → Grows xs (update_where (has_id i) f xs)
Absent-untouched i f [] a = tt
Absent-untouched i f (x ∷ xs) a =
    (touched (has_id i) f x (λ e. absurd (a.0 (==→eq x.id i e))), Absent-untouched i f xs a.1)

pub Member-Absent :
    (i : ℕ) (r : TaskExecution) (xs : List TaskExecution) → Absent i xs → Member r xs → r.id ≢ i
Member-Absent i r [] a m = elim m [ ]
Member-Absent i r (x ∷ xs) a (inl e) = λ same. a.0 (ap (λ (v : TaskExecution). v.id) (sym e) ∙ same)
Member-Absent i r (x ∷ xs) a (inr m) = Member-Absent i r xs a.1 m

pub Grows-update_by_id :
    (hi : ℕ) (r : TaskExecution) (f : TaskExecution → TaskExecution) (xs : List TaskExecution)
    → Keyed hi xs
    → Member r xs
    → Advance r (f r)
    → Grows xs (update_where (has_id r.id) f xs)
Grows-update_by_id hi r f [] k m a = elim m [ ]
Grows-update_by_id hi r f (x ∷ xs) k (inl e) a =
    (touched (has_id r.id) f x (λ _. rw (sym e) a), Absent-untouched r.id f xs (rw e k.1))
Grows-update_by_id hi r f (x ∷ xs) k (inr m) a = (
  touched (has_id r.id) f x (λ e. absurd (Member-Absent x.id r xs k.1 m (sym (==→eq x.id r.id e)))),
  Grows-update_by_id hi r f xs k.2 m a,
)

pub Evolves-Evolution : Evolution Evolves
Evolves-Evolution = record {
  still = λ w faults k. record {
    keyed = k;
    grows = Grows-refl w.executions;
    tasks_kept = Kept-refl w.next_task_id w.tasks;
  };
  go_on = λ u v w h k iu.
      let a = h iu in
      let b = k a.keyed in
      record {
        keyed = b.keyed;
        grows = Grows-trans u.executions v.executions w.executions a.grows b.grows;
        tasks_kept =
            Kept-trans u.next_task_id v.next_task_id w.next_task_id a.tasks_kept b.tasks_kept;
      };
  in_tenant = λ w tenant k. record {
    keyed = k;
    grows = Grows-refl w.executions;
    tasks_kept = Kept-refl w.next_task_id w.tasks;
  };
  sending = λ w o k. record {
    keyed = k;
    grows = Grows-refl w.executions;
    tasks_kept = Kept-refl w.next_task_id w.tasks;
  };
}

pub update_executions-Evolves :
    (p : TaskExecution → Bool) (f : TaskExecution → TaskExecution)
    → ((x : TaskExecution) → p x ≡ true → Advance x (f x))
    → Obeys Evolves (update_executions p f)
unfolding update_executions
update_executions-Evolves p f h = Obeys-statement Evolves-Evolution (change_rows p f) (record {
  at = λ w k.
      let g = Grows-update_where p f w.executions h in
      record {
        keyed = Grows-Keyed w.next_execution_id p f w.executions k g;
        grows = g;
        tasks_kept = Kept-refl w.next_task_id w.tasks;
      };
})

pub select_executions-Evolves : {A : Type 0} (f : World → A) → Obeys Evolves (select_executions f)
unfolding select_executions
select_executions-Evolves f = search (obeys_rules, Evolves-Evolution)

round_trip-reads :
    {A : Type 0} (f : World → A) (faults : List Bool) (w : World) (a : A)
    → (round_trip faults (gets f) w).0 ≡ ok a
    → a ≡ f (round_trip faults (gets f) w).1
unfolding gets
round_trip-reads f [] w a h = cc
round_trip-reads f (true ∷ faults) w a h = cc
round_trip-reads f (false ∷ faults) w a h = cc

-- What a SELECT returned is what stands in the world that it leaves.
pub select_executions-reads :
    {A : Type 0} (f : World → A) (w : World) (a : A)
    → (select_executions f w).0 ≡ ok a
    → a ≡ f (select_executions f w).1
unfolding select_executions statement
select_executions-reads f w a h = round_trip-reads f w.faults w a h
