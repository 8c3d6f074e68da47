-- ===== src/System/Ending.antt =====
-- What a completion achieves (internal/event/complete/consumer.go): the execution has ended.
use etask.Base.{
  ℕ, ◌≡◌, refl, sym, ap, ◌∙◌, subst, arith, Bool, true, false, not, List, [], ◌∷◌, ◌||◌, String,
  Member, Bool-cases, inl, inr, ◌==◌, if◌then◌else◌, count_where, count_where-none, ℤ,
}
use etask.Errs.{Result, ok}
use etask.Domain.Status.{
  ExecutionStatus, is_terminal_status, is_valid_status, non_terminal_statuses,
  non_terminal_statuses-exact, waiting_pull, prepare, running, failed_retryable, failed_rescheduled,
}
use etask.Domain.Execution.{TaskExecution}
use etask.Store.{World, CompleteEvent, execution_changed}
use etask.Store.Action.{Action, pure, throw, gets, emit, ◌>>=◌, ◌>>◌}
use etask.Store.Obeys.{Obeys, obeys_rules}
use etask.Store.Inversion.{bind-ok, statement-ok}
use etask.Execution.Table.{update_executions, change_rows, get_by_id}
use etask.Execution.Updates.{in_status, update_schedule_result, with_schedule_result, Report}
use etask.Execution.Service.{schedule_result}
use etask.Execution.Completion.{completion_state, handle_task, finish, final_report, move_on}
use etask.Execution.Diagram.Steps.{Evolves, EndsRun}
use etask.Execution.Diagram.Statements.{non_terminal-permits}
use etask.Execution.Service.Lifecycle.{schedule_result-Evolves}
use etask.Execution.Diagram.Rules.{Evolves-Evolution}
use etask.System.Completing.{handle_task-Evolves, move_on-Evolves, completion_state-EndsRun}
use etask.System.Claiming.{result-Won, ok-bool}
use etask.System.Safety.{IsSound, Grows-Later, Evolves-IsSound}
use etask.System.Runs.{◌⇝◌, ⇝-Evolves}

update-missed :
    (i : ℕ) (expected : List ExecutionStatus) (f : TaskExecution → TaskExecution) (w : World)
    (n : ℕ) (x : TaskExecution)
    → (update_executions (in_status i expected) f w).0 ≡ ok n
    → (n == 0) ≡ true
    → Member x w.executions
    → in_status i expected x ≡ false
unfolding update_executions
update-missed i expected f w n x h nothing m =
    let p = in_status i expected in
    let done = statement-ok (change_rows p f) w n h in
    let counted : ok (count_where p w.executions) ≡ ok n = ap (λ v. v.0) (sym done.1) ∙ h in
    count_where-none p x w.executions (cc) m

negated : (b : Bool) → not b ≡ false → b ≡ true
negated b h = ground arith

module _ (i : ℕ) (s : ExecutionStatus) (ss : List ExecutionStatus) (r : Report) (result : String)
    (w : World) where
  write-missed :
      (x : TaskExecution)
      → (update_schedule_result i (s ∷ ss) r result w).0 ≡ ok false
      → Member x w.executions
      → in_status i (s ∷ ss) x ≡ false
  unfolding update_schedule_result gets ◌>>=◌ pure
  write-missed x h m =
      let f = with_schedule_result w.now r result in
      let split =
        bind-ok (update_executions (in_status i (s ∷ ss)) f) (λ n. pure (not (n == 0))) w false h in
      let answer : ok (not (split.0 == 0)) ≡ ok false = sym (ap (λ v. v.0) split.2) ∙ h in
      update-missed i (s ∷ ss) f w split.0 x split.1
        (negated (split.0 == 0) (ok-bool (not (split.0 == 0)) false answer)) m

  told-false :
      (b : Bool) (v : World)
      → ((if b then emit (execution_changed i) >> pure true else get_by_id i >> pure false) v).0
        ≡ ok false
      → b ≡ false
  unfolding emit ◌>>=◌ pure
  told-false true v h = absurd (ground arith)
  told-false false v h = refl

  result-missed :
      (x : TaskExecution)
      → (schedule_result i (s ∷ ss) r result w).0 ≡ ok false
      → Member x w.executions
      → in_status i (s ∷ ss) x ≡ false
  unfolding schedule_result
  result-missed x h m =
      let write = update_schedule_result i (s ∷ ss) r result in
      let rest : Bool → Action Bool =
        λ b. if b then emit (execution_changed i) >> pure true else get_by_id i >> pure false in
      let split = bind-ok write rest w false h in
      let missed = told-false split.0 (write w).1 (sym (ap (λ v. v.0) split.2) ∙ h) in
      write-missed x (split.1 ∙ ap (λ b. ok b) missed) m

completion_state-ends :
    (s : ExecutionStatus) (final : ExecutionStatus × ℤ)
    → completion_state s ≡ ok final
    → is_terminal_status final.0 ≡ true
unfolding completion_state is_terminal_status
completion_state-ends s final h = ground arith

-- An execution of the id `i` that has ended.
abbrev EndedIn : ℕ → List TaskExecution → Type 0
EndedIn i es = (x : TaskExecution) × Member x es × (x.id ≡ i) × (is_terminal_status x.status ≡ true)

stays_ended :
    (i : ℕ) (u v : World)
    → IsSound u
    → Evolves u v
    → EndedIn i u.executions
    → EndedIn i v.executions
stays_ended i u v sound h (x, m, id, t) =
    let l = Grows-Later x u.executions v.executions (h sound.executions_keyed).grows m in
    let same = l.2.terminal_kept t in (x, subst (λ y. Member y v.executions) same l.1, id, t)

open-in_status :
    (i : ℕ) (e : TaskExecution)
    → e.id ≡ i
    → is_valid_status e.status ≡ true
    → is_terminal_status e.status ≡ false
    → in_status i non_terminal_statuses e ≡ true
open-in_status i e id valid opens =
    let exact = non_terminal_statuses-exact e.status in ground (arith, exact)

module _ (others : ℕ → World → World) (h : (k : ℕ) (x : World) → x ⇝ others k x)
    (ev : CompleteEvent) (w : World) (e : TaskExecution) (sound : IsSound w)
    (stands : Member e w.executions) (id : e.id ≡ ev.exec_id)
    (valid : is_valid_status e.status ≡ true) where
  others-Evolves : (k : ℕ) (x : World) → Evolves x (others k x)
  others-Evolves k x = ⇝-Evolves x (others k x) (h k x)

  abbrev result_of : ExecutionStatus × ℤ → Action Bool
  result_of final =
      schedule_result ev.exec_id non_terminal_statuses (final_report w.now ev final) ev.task_result

  abbrev after : ExecutionStatus × ℤ → Bool → Action (Unit {0})
  after final b = if not b || ev.task_id == 0 then pure tt else move_on others ev final.0

  after-Evolves : (final : ExecutionStatus × ℤ) (b : Bool) → Obeys Evolves (after final b)
  after-Evolves final b =
      let moves = move_on-Evolves others others-Evolves ev final.0 in
      search (obeys_rules, Evolves-Evolution)

  won-ends :
      (final : ExecutionStatus × ℤ)
      → is_terminal_status final.0 ≡ true
      → (b : Bool) → is_terminal_status e.status ≡ false
      → (result_of final w).0 ≡ ok b
      → EndedIn ev.exec_id (result_of final w).1.executions
  won-ends final ends true opens got =
      let won =
        result-Won ev.exec_id waiting_pull
          (prepare ∷ running ∷ failed_retryable ∷ failed_rescheduled ∷ [])
          (final_report w.now ev final) ev.task_result w got in
      (
        with_schedule_result w.now (final_report w.now ev final) ev.task_result won.0,
        won.4,
        won.2,
        ends,
      )
  won-ends final ends false opens got =
      let missed =
        result-missed ev.exec_id waiting_pull
          (prepare ∷ running ∷ failed_retryable ∷ failed_rescheduled ∷ [])
          (final_report w.now ev final) ev.task_result w e got stands in
      absurd (ground (arith, missed, open-in_status ev.exec_id e id valid opens))

  finish-ends :
      (final : ExecutionStatus × ℤ)
      → is_terminal_status final.0 ≡ true
      → EndsRun final.0
      → is_terminal_status e.status ≡ false
      → (finish others ev final w).0 ≡ ok tt
      → EndedIn ev.exec_id (finish others ev final w).1.executions
  unfolding finish gets ◌>>=◌
  finish-ends final ends run opens got =
      let split = bind-ok (result_of final) (after final) w tt got in
      let v = (result_of final w).1 in
      let writes =
        schedule_result-Evolves ev.exec_id non_terminal_statuses (final_report w.now ev final)
          ev.task_result (non_terminal-permits final.0 run) in
      let sound' = Evolves-IsSound w v sound (writes.at w) in
      let won = won-ends final ends split.0 opens split.1 in
      subst (λ (x : Result (Unit {0}) × World). EndedIn ev.exec_id x.1.executions) (sym split.2)
        (stays_ended ev.exec_id v (after final split.0 v).1 sound'
          ((after-Evolves final split.0).at v) won)

  opens-ends :
      is_terminal_status e.status ≡ false
      → (handle_task others ev w).0 ≡ ok tt
      → EndedIn ev.exec_id (handle_task others ev w).1.executions
  unfolding handle_task throw
  opens-ends opens got =
      let split = bind-ok (throw (completion_state ev.exec_status)) (finish others ev) w tt got in
      subst (λ (x : Result (Unit {0}) × World). EndedIn ev.exec_id x.1.executions) (sym split.2)
        (finish-ends split.0 (completion_state-ends ev.exec_status split.0 split.1)
          (completion_state-EndsRun ev.exec_status split.0 split.1) opens
          (sym (ap (λ x. x.0) split.2) ∙ got))

  -- In sound tables, where the execution of the message stands in a valid status, a completion that
  -- is handled without an error leaves its execution in a terminal
  -- state, whether it wrote that state itself or came too late, and whatever other processes do
  -- while the task moves on.
  pub handle_task-ends :
      (handle_task others ev w).0 ≡ ok tt
      → (x : TaskExecution) × Member x (handle_task others ev w).1.executions
        × (x.id ≡ ev.exec_id)
        × (is_terminal_status x.status ≡ true)
  handle_task-ends got = elim (Bool-cases (is_terminal_status e.status)) [
    | inl ended ↦
        stays_ended ev.exec_id w (handle_task others ev w).1 sound
          ((handle_task-Evolves others others-Evolves ev).at w) (e, stands, id, ended)
    | inr opens ↦ opens-ends opens got
  ]
