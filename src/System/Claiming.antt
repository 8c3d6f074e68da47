-- ===== src/System/Claiming.antt =====
-- Who gets an execution that several schedulers try again (`claimForDispatch` of
-- internal/service/dispatcher/task.go), and the guards before a dispatch and around a cancellation.
use etask.Base.{
  ℕ, ◌≡◌, ◌≢◌, refl, sym, ap, ◌∙◌, subst, arith, Bool, true, false, not, List, [], ◌∷◌, String,
  Member, ◌==◌, ==→eq, ==-self, inl, inr, Bool-cases, count_where, any_where, if◌then◌else◌,
  count_where-Member, update_where-Member,
}
use etask.Errs.{Result, ok}
use etask.Domain.Status.{
  ExecutionStatus, prepare, status_in, same_status-eq, is_valid_status, is_terminal_status,
  non_terminal_statuses, non_terminal_statuses-exact,
}
use etask.Domain.Execution.{TaskExecution}
use etask.Domain.Task.{Task, is_preempted}
use etask.Store.{World, execution_changed}
use etask.Store.Action.{Action, pure, gets, try, emit, ◌>>=◌, ◌>>◌}
use etask.Store.Inversion.{bind-ok, statement-ok}
use etask.Store.Quiet.{IsQuiet-pure, IsQuiet-bind}
use etask.Execution.Table.{update_executions, change_rows, select_executions, get_by_id}
use etask.Execution.Updates.{in_status, update_schedule_result, with_schedule_result, Report}
use etask.Execution.Queries.{has_non_terminal_by_task_id, is_open_of_task}
use etask.Execution.Service.{schedule_result}
use etask.Execution.Diagram.Steps.{AwaitsRetry, retryable, rescheduled}
use etask.Task.Service.{acquire_task}
use etask.Dispatch.Routing.{Services}
use etask.Dispatch.Dispatcher.{
  claim_for_dispatch, claim_report, dispatch, has_running_execution, with_acquired,
}
use etask.System.Safety.{IsSound, Evolves-IsSound, Keyed-unique}
use etask.System.Once.{select-IsQuiet}
use etask.System.Dispatching.{claim_for_dispatch-Evolves}

pub ok-bool : (a b : Bool) → ok a ≡ ok b → a ≡ b
ok-bool a b h = cc

pub not-zero : (b : Bool) → not b ≡ true → b ≡ false
not-zero b h = ground arith

in_status-parts :
    (i : ℕ) (expected : List ExecutionStatus) (x : TaskExecution)
    → in_status i expected x ≡ true
    → (x.id ≡ i) × (status_in expected x.status ≡ true)
in_status-parts i expected x h = (==→eq x.id i (ground arith), ground arith)

-- A guarded update that met a row: the row of the id was in an expected state, and stands as
-- written.
pub update-met :
    (i : ℕ) (expected : List ExecutionStatus) (f : TaskExecution → TaskExecution) (w : World)
    (n : ℕ)
    → (update_executions (in_status i expected) f w).0 ≡ ok n
    → (n == 0) ≡ false
    → (x : TaskExecution) × Member x w.executions
      × (x.id ≡ i)
      × (status_in expected x.status ≡ true)
      × Member (f x) (update_executions (in_status i expected) f w).1.executions
unfolding update_executions
update-met i expected f w n h some_row =
    let p = in_status i expected in
    let done = statement-ok (change_rows p f) w n h in
    let counted : ok (count_where p w.executions) ≡ ok n = ap (λ v. v.0) (sym done.1) ∙ h in
    let hit = count_where-Member p w.executions (cc) in
    let parts = in_status-parts i expected hit.0 hit.2 in
    (
      hit.0,
      hit.1,
      parts.0,
      parts.1,
      subst (λ (v : Result ℕ × World). Member (f hit.0) v.1.executions) (sym done.1)
          (update_where-Member p f hit.0 w.executions hit.1 hit.2),
    )

ok-false : ok false ≡ ok true → ⊥
ok-false h = ground arith

status_in-one : (t s : ExecutionStatus) → status_in (s ∷ []) t ≡ true → t ≡ s
unfolding status_in
status_in-one t s h = same_status-eq t s (ground arith)

prepare-waits : (s : ExecutionStatus) → AwaitsRetry s → prepare ≢ s
prepare-waits _ retryable h = ground arith
prepare-waits _ rescheduled h = ground arith

module _ (i : ℕ) (s : ExecutionStatus) (ss : List ExecutionStatus) (r : Report) (result : String)
    (w : World) where
  abbrev write : Action Bool
  write = update_schedule_result i (s ∷ ss) r result

  abbrev pub report_back : Bool → Action Bool
  report_back updated =
      if updated then emit (execution_changed i) >> pure true else get_by_id i >> pure false

  -- The row of the id was in an expected state, and stands as written.
  abbrev pub Won : World → Type 0
  Won v =
      (x : TaskExecution) × Member x w.executions
      × (x.id ≡ i)
      × (status_in (s ∷ ss) x.status ≡ true)
      × Member (with_schedule_result w.now r result x) v.executions

  write-Won : (write w).0 ≡ ok true → Won (write w).1
  unfolding update_schedule_result gets ◌>>=◌ pure
  write-Won h =
      let f = with_schedule_result w.now r result in
      let split =
        bind-ok (update_executions (in_status i (s ∷ ss)) f) (λ n. pure (not (n == 0))) w true h in
      let answer : ok (not (split.0 == 0)) ≡ ok true = sym (ap (λ x. x.0) split.2) ∙ h in
      let got =
        update-met i (s ∷ ss) f w split.0 split.1
          (not-zero (split.0 == 0) (ok-bool (not (split.0 == 0)) true answer)) in
      (
        got.0,
        got.1,
        got.2,
        got.3,
        subst
            (λ (v : Result Bool × World).
              Member (with_schedule_result w.now r result got.0) v.1.executions)
            (sym split.2) got.4,
      )

  reported-Won : (b : Bool) (v : World) → (report_back b v).0 ≡ ok true → b ≡ true
  unfolding pure
  reported-Won true v h = refl
  reported-Won false v h =
      let inner = bind-ok (get_by_id i) (λ _. pure false) v true h in
      absurd (ok-false (sym (ap (λ x. x.0) inner.2) ∙ h))

  told : (v : World) → (report_back true v).1.executions ≡ v.executions
  unfolding emit ◌>>=◌ pure
  told v = refl

  pub result-Won :
      (schedule_result i (s ∷ ss) r result w).0 ≡ ok true
      → Won (schedule_result i (s ∷ ss) r result w).1
  unfolding schedule_result
  result-Won h =
      let split = bind-ok write report_back w true h in
      let back : (report_back split.0 (write w).1).0 ≡ ok true = sym (ap (λ x. x.0) split.2) ∙ h in
      let yes = reported-Won split.0 (write w).1 back in
      let got = write-Won (split.1 ∙ ap (λ b. ok b) yes) in
      let kept : ((write >>= report_back) w).1.executions ≡ (write w).1.executions =
        ap (λ (x : Result Bool × World). x.1.executions) split.2
        ∙ ap (λ b. (report_back b (write w).1).1.executions) yes
        ∙ told (write w).1 in
      (
        got.0,
        got.1,
        got.2,
        got.3,
        subst (λ es. Member (with_schedule_result w.now r result got.0) es) (sym kept) got.4,
      )

claim-Won :
    (e : TaskExecution) (s : ExecutionStatus) (w : World)
    → (claim_for_dispatch e s w).0 ≡ ok true
    → Won e.id s [] (claim_report e) "" w (claim_for_dispatch e s w).1
unfolding claim_for_dispatch
claim-Won e s w h = result-Won e.id s [] (claim_report e) "" w h

-- Two schedulers that try one execution again do not both win it: after one has claimed it, the
-- claim of the other, whatever record it read and whichever of the two waiting states it expects,
-- never succeeds.
pub claim-once :
    (e e' : TaskExecution) (s s' : ExecutionStatus) (w : World)
    → IsSound w
    → AwaitsRetry s
    → AwaitsRetry s'
    → e'.id ≡ e.id
    → (claim_for_dispatch e s w).0 ≡ ok true
    → (claim_for_dispatch e' s' (claim_for_dispatch e s w).1).0 ≢ ok true
claim-once e e' s s' w sound a a' same first second =
    let v = (claim_for_dispatch e s w).1 in
    let sound' = Evolves-IsSound w v sound ((claim_for_dispatch-Evolves e s a).at w) in
    let got = claim-Won e s w first in
    let got' = claim-Won e' s' v second in
    let x : TaskExecution = with_schedule_result w.now (claim_report e) "" got.0 in
    let one : got'.0 ≡ x =
      Keyed-unique v.next_execution_id got'.0 x v.executions sound'.executions_keyed got'.1 got.4
        (got'.2 ∙ same ∙ sym got.2) in
    prepare-waits s' a'
      (sym (ap (λ (y : TaskExecution). y.status) one) ∙ status_in-one got'.0.status s' got'.3)

unless_active : Services → String → Task → Bool → Action (Unit {0})
unless_active s node t active =
    if active
    then pure tt
    else do acquired ← try (acquire_task t.id t.version node); with_acquired s node acquired

any_where-some :
    (p : TaskExecution → Bool) (e : TaskExecution) (es : List TaskExecution)
    → Member e es
    → p e ≡ true
    → any_where p es ≡ true
any_where-some p e [] m h = elim m [ ]
any_where-some p e (x ∷ es) (inl is) h = rw (subst (λ y. p y ≡ true) is h) refl
any_where-some p e (x ∷ es) (inr m) h =
    let rest = any_where-some p e es m h in
    elim (Bool-cases (p x)) [ inl f ↦ rw f refl | inr f ↦ rw f rest ]

module _ (t : Task) (w : World) (e : TaskExecution) (there : Member e w.executions)
    (its : e.task_id ≡ t.id) (seen : w.scope_of w.tenant e.tenant_id ≡ true)
    (valid : is_valid_status e.status ≡ true) (open_yet : is_terminal_status e.status ≡ false) where
  stands_open : any_where (is_open_of_task t.id w) w.executions ≡ true
  stands_open =
      let open_status : status_in non_terminal_statuses e.status ≡ true =
        non_terminal_statuses-exact e.status ∙ rw (valid, open_yet) refl in
      any_where-some (is_open_of_task t.id w) e w.executions there
        (rw (seen, its, open_status) (rw (==-self t.id) refl))

  read-running : (b : Bool) → (has_non_terminal_by_task_id t.id w).0 ≡ ok b → b ≡ true
  unfolding has_non_terminal_by_task_id select_executions gets
  read-running b h =
      let read = λ (v : World). any_where (is_open_of_task t.id v) v.executions in
      let done = statement-ok (gets read) w b h in
      sym (ok-bool true b (ap (λ a. ok a) (sym stands_open) ∙ sym (ap (λ v. v.0) done.1) ∙ h))

-- The dispatch of a preempted task changes nothing - no lease, no second execution, no call - as
-- long as the table holds an execution of the task that the tenant of the context sees, in any
-- valid status that is not terminal; and this whatever statement fails.
pub dispatch-running :
    (s : Services) (node : String) (t : Task) (w : World) (e : TaskExecution)
    → is_preempted t.status ≡ true
    → Member e w.executions
    → e.task_id ≡ t.id
    → w.scope_of w.tenant e.tenant_id ≡ true
    → is_valid_status e.status ≡ true
    → is_terminal_status e.status ≡ false
    → (rest : List Bool) × ((dispatch s node t w).1 ≡ record w { faults = rest })
unfolding dispatch has_running_execution has_non_terminal_by_task_id unless_active
dispatch-running s node t w e held there its seen valid open_yet = rw held (
    IsQuiet-bind (has_non_terminal_by_task_id t.id) (unless_active s node t) w
      (select-IsQuiet (λ v. any_where (is_open_of_task t.id v) v.executions) w)
      (λ b h.
        rw (read-running t w e there its seen valid open_yet b h)
          (IsQuiet-pure tt (has_non_terminal_by_task_id t.id w).1)))
