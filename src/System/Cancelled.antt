-- ===== src/System/Cancelled.antt =====
-- What a cancellation does (`Request` of internal/repository/dao/execution_cancellation.go): all of
-- it, or nothing.
use etask.Base.{
  ℕ, ◌≡◌, refl, sym, ap, ◌∙◌, subst, arith, Bool, true, false, List, String, Option, none, some,
  Member, ◌==◌, ==→eq, if◌then◌else◌, first_where, first_where-Member,
}
use etask.Errs.{Err, Result, ok, cancellation_terminal}
use etask.Domain.Status.{ExecutionStatus, cancelled, non_terminal_statuses, is_cancelled}
use etask.Domain.Execution.{TaskExecution}
use etask.Domain.Task.{Task}
use etask.Domain.Cancellation.{ExecutionCancellation}
use etask.Store.{World}
use etask.Store.Action.{Action, pure, fail, gets, ◌>>=◌, ◌>>◌}
use etask.Store.Obeys.{Evolution, Obeys, Obeys-statement, obeys_rules}
use etask.Store.Inversion.{bind-ok, transaction-ok}
use etask.Execution.Table.{update_executions}
use etask.Execution.Updates.{in_status}
use etask.Task.Table.{change_tasks, update_tasks}
use etask.Cancellation.Requests.{
  change_cancellations, update_cancellations, resolve_request_id, lock_or_create_cancellation,
  lock_target, target, bind_or_wait, bind_cancellation, cancel_execution, release_on_cancellation,
  schedule_delivery, request_cancellation, has_ended,
}
use etask.Execution.Diagram.Rules.{select_executions-reads}
use etask.System.Claiming.{update-met}

-- The executions stay as they are.
abbrev SameExecutions : World → World → Type 0
SameExecutions w w' = w'.executions ≡ w.executions

SameExecutions-Evolution : Evolution SameExecutions
SameExecutions-Evolution = record {
  still = λ w faults. refl;
  go_on = λ u v w h k. k ∙ h;
  in_tenant = λ w tenant. refl;
  sending = λ w o. refl;
}

update_tasks-same :
    (p : World → Task → Bool) (f : Task → Task) → Obeys SameExecutions (update_tasks p f)
unfolding update_tasks
update_tasks-same p f =
    Obeys-statement SameExecutions-Evolution (change_tasks p f) (record { at = λ w. refl })

update_cancellations-same :
    (p : World → ExecutionCancellation → Bool) (f : ExecutionCancellation → ExecutionCancellation)
    → Obeys SameExecutions (update_cancellations p f)
unfolding update_cancellations
update_cancellations-same p f =
    Obeys-statement SameExecutions-Evolution (change_cancellations p f) (record { at = λ w. refl })

ruleset same_rules =
    (obeys_rules, SameExecutions-Evolution, update_tasks-same, update_cancellations-same)

release_on_cancellation-same :
    (e : TaskExecution) → Obeys SameExecutions (release_on_cancellation e)
unfolding release_on_cancellation
release_on_cancellation-same e = search same_rules depth 10

schedule_delivery-same :
    (c : ExecutionCancellation) (i : ℕ) (reason : String)
    → Obeys SameExecutions (schedule_delivery c i reason)
unfolding schedule_delivery
schedule_delivery-same c i reason = search same_rules depth 8

-- An execution of the id `i` is cancelled in the table.
abbrev IsCancelledIn : ℕ → List TaskExecution → Type 0
IsCancelledIn i es = (x : TaskExecution) × Member x es × (x.id ≡ i) × (x.status ≡ cancelled)

abbrev cancelled_with : ℕ → String → TaskExecution → TaskExecution
cancelled_with now reason e = record e {
  status = cancelled;
  etime = now;
  task_result = reason;
  utime = now;
}

met_rows :
    (b : Bool) (x : Err) (v : World) (u : Unit {0})
    → ((if b then fail x else pure tt) v).0 ≡ ok u
    → (b ≡ false) × (((if b then fail x else pure tt) v).1 ≡ v)
unfolding fail pure
met_rows true x v u h = absurd (ground arith)
met_rows false x v u h = (refl, refl)

cancel_execution-ok :
    (i : ℕ) (reason : String) (w : World) (u : Unit {0})
    → (cancel_execution i reason w).0 ≡ ok u
    → IsCancelledIn i (cancel_execution i reason w).1.executions
unfolding cancel_execution gets ◌>>=◌
cancel_execution-ok i reason w u h =
    let f = cancelled_with w.now reason in
    let write = update_executions (in_status i non_terminal_statuses) f in
    let split = bind-ok write (λ n. if n == 0 then fail cancellation_terminal else pure tt) w u h in
    let m =
      met_rows (split.0 == 0) cancellation_terminal (write w).1 u
        (sym (ap (λ v. v.0) split.2) ∙ h) in
    let got = update-met i non_terminal_statuses f w split.0 split.1 m.0 in
    (
      f got.0,
      subst (λ (v : World). Member (f got.0) v.executions) (sym (ap (λ v. v.1) split.2 ∙ m.1))
          got.4,
      got.2,
      refl,
    )

cancel_and_release : TaskExecution → String → Action (Unit {0})
cancel_and_release e reason = cancel_execution e.id reason >> release_on_cancellation e

end_it : TaskExecution → String → Action (Unit {0})
end_it e reason = if is_cancelled e.status then pure tt else cancel_and_release e reason

cancelled-status : (s : ExecutionStatus) → is_cancelled s ≡ true → s ≡ cancelled
cancelled-status s h = ground arith

end_it-ok :
    (e : TaskExecution) (reason : String) (w : World) (u : Unit {0}) (b : Bool)
    → is_cancelled e.status ≡ b
    → Member e w.executions
    → ((if b then pure tt else cancel_and_release e reason) w).0 ≡ ok u
    → IsCancelledIn e.id ((if b then pure tt else cancel_and_release e reason) w).1.executions
unfolding pure cancel_and_release
end_it-ok e reason w u true c m h = (e, m, refl, cancelled-status e.status c)
end_it-ok e reason w u false c m h =
    let split = bind-ok (cancel_execution e.id reason) (λ _. release_on_cancellation e) w u h in
    let v = (cancel_execution e.id reason w).1 in
    subst (IsCancelledIn e.id)
      (sym (
        ap (λ (x : Result (Unit {0}) × World). x.1.executions) split.2
        ∙ (release_on_cancellation-same e).at v))
      (cancel_execution-ok e.id reason w split.0 split.1)

bind_open : ExecutionCancellation → TaskExecution → String → Action (Unit {0})
bind_open c e reason = end_it e reason >> schedule_delivery c e.id reason

bind_open-ok :
    (c : ExecutionCancellation) (e : TaskExecution) (reason : String) (w : World) (u : Unit {0})
    → Member e w.executions
    → (bind_open c e reason w).0 ≡ ok u
    → IsCancelledIn e.id (bind_open c e reason w).1.executions
unfolding bind_open end_it
bind_open-ok c e reason w u m h =
    let split = bind-ok (end_it e reason) (λ _. schedule_delivery c e.id reason) w u h in
    let v = (end_it e reason w).1 in
    subst (IsCancelledIn e.id)
      (sym (
        ap (λ (x : Result (Unit {0}) × World). x.1.executions) split.2
        ∙ (schedule_delivery-same c e.id reason).at v))
      (end_it-ok e reason w split.0 (is_cancelled e.status) refl m split.1)

unless_ended :
    (c : ExecutionCancellation) (e : TaskExecution) (reason : String) (w : World) (u : Unit {0})
    (b : Bool)
    → Member e w.executions
    → ((if b then fail cancellation_terminal else bind_open c e reason) w).0 ≡ ok u
    → IsCancelledIn e.id
        ((if b then fail cancellation_terminal else bind_open c e reason) w).1.executions
unfolding fail
unless_ended c e reason w u true m h = absurd (ground arith)
unless_ended c e reason w u false m h = bind_open-ok c e reason w u m h

bind_cancellation-ok :
    (c : ExecutionCancellation) (e : TaskExecution) (reason : String) (w : World) (u : Unit {0})
    → Member e w.executions
    → (bind_cancellation c e reason w).0 ≡ ok u
    → IsCancelledIn e.id (bind_cancellation c e reason w).1.executions
unfolding bind_cancellation bind_open end_it cancel_and_release
bind_cancellation-ok c e reason w u m h = unless_ended c e reason w u (has_ended e.status) m h

module _ (i : ℕ) (given : (i == 0) ≡ false) where
  target-id : (r : String) (w : World) (e : TaskExecution) → target i r w e ≡ true → e.id ≡ i
  target-id r w e h = ==→eq e.id i (ground (arith, given))

  bind_or_wait-ok :
      (c : ExecutionCancellation) (reason r : String) (found : Option TaskExecution) (w : World)
      (u : Unit {0})
      → first_where (target i r w) w.executions ≡ found
      → (bind_or_wait i c reason found w).0 ≡ ok u
      → IsCancelledIn i (bind_or_wait i c reason found w).1.executions
  unfolding bind_or_wait fail
  bind_or_wait-ok c reason r none w u read h = absurd (ground (arith, given))
  bind_or_wait-ok c reason r (some e) w u read h =
      let m = first_where-Member (target i r w) e w.executions read in
      subst (λ j. IsCancelledIn j (bind_cancellation c e reason w).1.executions)
        (target-id r w e m.1) (bind_cancellation-ok c e reason w u m.0 h)

  lock_target-reads :
      (r : String) (w : World) (found : Option TaskExecution)
      → (lock_target i r w).0 ≡ ok found
      → first_where (target i r (lock_target i r w).1) (lock_target i r w).1.executions ≡ found
  unfolding lock_target
  lock_target-reads r w found h =
      sym (select_executions-reads (λ v. first_where (target i r v) v.executions) w found h)

  abbrev locked : String → String → ExecutionCancellation → Action (Unit {0})
  locked r reason c = lock_target i r >>= λ found. bind_or_wait i c reason found

  locked-ok :
      (r reason : String) (c : ExecutionCancellation) (w : World) (u : Unit {0})
      → (locked r reason c w).0 ≡ ok u
      → IsCancelledIn i (locked r reason c w).1.executions
  locked-ok r reason c w u h =
      let split = bind-ok (lock_target i r) (λ found. bind_or_wait i c reason found) w u h in
      let v = (lock_target i r w).1 in
      subst (λ (x : Result (Unit {0}) × World). IsCancelledIn i x.1.executions) (sym split.2)
        (bind_or_wait-ok c reason r split.0 v u (lock_target-reads r w split.0 split.1)
          (sym (ap (λ x. x.0) split.2) ∙ h))

  abbrev resolved : String → String → Action (Unit {0})
  resolved reason r = lock_or_create_cancellation r reason >>= locked r reason

  resolved-ok :
      (r reason : String) (w : World) (u : Unit {0})
      → (resolved reason r w).0 ≡ ok u
      → IsCancelledIn i (resolved reason r w).1.executions
  resolved-ok r reason w u h =
      let split = bind-ok (lock_or_create_cancellation r reason) (locked r reason) w u h in
      subst (λ (x : Result (Unit {0}) × World). IsCancelledIn i x.1.executions) (sym split.2)
        (locked-ok r reason split.0 (lock_or_create_cancellation r reason w).1 u
          (sym (ap (λ x. x.0) split.2) ∙ h))

  -- A request for the execution `i` that is accepted has ended it: in the table that the request
  -- leaves, the execution is cancelled.
  pub request_cancellation-ends :
      (r reason : String) (w : World)
      → (request_cancellation i r reason w).0 ≡ ok tt
      → (x : TaskExecution) × Member x (request_cancellation i r reason w).1.executions
        × (x.id ≡ i)
        × (x.status ≡ cancelled)
  unfolding request_cancellation
  request_cancellation-ends r reason w h =
      let body : Action (Unit {0}) = resolve_request_id i r >>= resolved reason in
      let whole = transaction-ok body w tt h in
      let split = bind-ok (resolve_request_id i r) (resolved reason) w tt whole.1 in
      let v = (resolve_request_id i r w).1 in
      let got = resolved-ok split.0 reason v tt (sym (ap (λ x. x.0) split.2) ∙ whole.1) in
      subst (λ (x : Result (Unit {0}) × World). IsCancelledIn i x.1.executions) (sym whole.2)
        (subst (λ (x : Result (Unit {0}) × World). IsCancelledIn i x.1.executions) (sym split.2)
          got)
