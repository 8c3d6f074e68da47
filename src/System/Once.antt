-- ===== src/System/Once.antt =====
-- What happens at most once: completing an execution (internal/event/complete/consumer.go) and
-- running a task (internal/service/dispatcher/task.go).
use etask.Base.{
  ℕ, ◌≡◌, refl, sym, ap, ◌∙◌, subst, arith, Bool, true, false, not, List, ◌||◌, String, Member,
  Bool-cases, inl, inr, ◌==◌, ==→eq, none_where, first_where, if◌then◌else◌, ℤ,
}
use etask.Errs.{ok, err, execution_not_found}
use etask.Domain.Status.{
  ExecutionStatus, is_terminal_status, status_in, non_terminal_statuses, same_status,
}
use etask.Domain.Execution.{TaskExecution}
use etask.Store.{World, CompleteEvent, execution_changed}
use etask.Store.Action.{Action, pure, throw, gets, emit, ◌>>=◌, ◌>>◌}
use etask.Store.Inversion.{bind-ok, statement-ok}
use etask.Store.Quiet.{
  IsQuiet, IsQuiet-pure, IsQuiet-throw, IsQuiet-gets, IsQuiet-bind, IsQuiet-statement,
}
use etask.Execution.Table.{
  has_id, update_executions, change_rows, get_by_id, find_by_id, select_executions, found_or,
}
use etask.Execution.Updates.{in_status, update_schedule_result, with_schedule_result, Report}
use etask.Execution.Service.{schedule_result}
use etask.Execution.Completion.{completion_state, handle_task, finish, final_report, move_on}
use etask.System.Safety.{IsSound, Keyed-unique}

ok-nat : (m n : ℕ) → ok m ≡ ok n → m ≡ n
ok-nat m n h = cc

ok-bool : (a b : Bool) → ok a ≡ ok b → a ≡ b
ok-bool a b h = cc

pub select-IsQuiet : {A : Type 0} (f : World → A) (w : World) → IsQuiet (select_executions f) w
unfolding select_executions
select-IsQuiet f w =
    IsQuiet-statement (gets f) w (λ rest. IsQuiet-gets f (record w { faults = rest }))

get_by_id-IsQuiet : (i : ℕ) (w : World) → IsQuiet (get_by_id i) w
unfolding get_by_id find_by_id
get_by_id-IsQuiet i w =
    IsQuiet-bind (find_by_id i) (λ found. throw (found_or (err execution_not_found) found)) w
      (select-IsQuiet (λ v. first_where (has_id i) v.executions) w)
      (λ found _. IsQuiet-throw (found_or (err execution_not_found) found) (find_by_id i w).1)

ended-not_open :
    (s : ExecutionStatus) → is_terminal_status s ≡ true → status_in non_terminal_statuses s ≡ false
unfolding status_in is_terminal_status same_status
ended-not_open s h = ground arith

met-id : (i : ℕ) (x : TaskExecution) → in_status i non_terminal_statuses x ≡ true → x.id ≡ i
met-id i x h = ==→eq x.id i (ground arith)

met-open :
    (i : ℕ) (x : TaskExecution)
    → in_status i non_terminal_statuses x ≡ true
    → status_in non_terminal_statuses x.status ≡ true
met-open i x h = ground arith

-- The ended execution of an id, in a table with proper keys: no guarded write meets it.
module _ (w : World) (sound : IsSound w) (e : TaskExecution) (stands : Member e w.executions)
    (ended : is_terminal_status e.status ≡ true) where
  unmet :
      (x : TaskExecution) → Member x w.executions → in_status e.id non_terminal_statuses x ≡ false
  unmet x m = elim (Bool-cases (in_status e.id non_terminal_statuses x)) [
    | inl h ↦
        let same : x ≡ e =
          Keyed-unique w.next_execution_id x e w.executions sound.executions_keyed m stands
            (met-id e.id x h) in
        let open_x = met-open e.id x h in
        let closed_x =
          ended-not_open x.status
            (subst (λ (y : TaskExecution). is_terminal_status y.status ≡ true) (sym same) ended) in
        absurd (ground (arith, open_x, closed_x))
    | inr h ↦ h
  ]

  write-IsQuiet :
      (f : TaskExecution → TaskExecution)
      → IsQuiet (update_executions (in_status e.id non_terminal_statuses) f) w
  unfolding update_executions
  write-IsQuiet f =
      IsQuiet-statement (change_rows (in_status e.id non_terminal_statuses) f) w (λ rest.
        (rest, rw (none_where (in_status e.id non_terminal_statuses) f w.executions unmet).1 refl))

  write-misses :
      (f : TaskExecution → TaskExecution) (n : ℕ)
      → (update_executions (in_status e.id non_terminal_statuses) f w).0 ≡ ok n
      → n ≡ 0
  unfolding update_executions
  write-misses f n h =
      let p = in_status e.id non_terminal_statuses in
      let done = statement-ok (change_rows p f) w n h in
      ok-nat n 0
        (sym h ∙ ap (λ r. r.0) done.1 ∙ ap (λ k. ok k) (none_where p f w.executions unmet).0)

  module _ (r : Report) (result : String) where
    abbrev write_at : ℕ → Action ℕ
    write_at now =
        update_executions (in_status e.id non_terminal_statuses) (with_schedule_result now r result)

    late_write-IsQuiet : IsQuiet (update_schedule_result e.id non_terminal_statuses r result) w
    unfolding update_schedule_result gets
    late_write-IsQuiet =
        IsQuiet-bind (gets (λ v. v.now)) (λ now. write_at now >>= λ n. pure (not (n == 0))) w
          (IsQuiet-gets (λ v. v.now) w)
          (λ now _.
            IsQuiet-bind (write_at now) (λ n. pure (not (n == 0))) w
              (write-IsQuiet (with_schedule_result now r result))
              (λ n _. IsQuiet-pure (not (n == 0)) (write_at now w).1))

    late_write-misses :
        (b : Bool)
        → (update_schedule_result e.id non_terminal_statuses r result w).0 ≡ ok b
        → b ≡ false
    unfolding update_schedule_result gets ◌>>=◌ pure
    late_write-misses b h =
        let split = bind-ok (write_at w.now) (λ n. pure (not (n == 0))) w b h in
        let none = write-misses (with_schedule_result w.now r result) split.0 split.1 in
        let answer : ok (not (split.0 == 0)) ≡ ok b = sym (ap (λ x. x.0) split.2) ∙ h in
        sym (ok-bool (not (split.0 == 0)) b answer) ∙ ap (λ n. not (n == 0)) none

    abbrev report_back : Bool → Action Bool
    report_back updated =
        if updated then emit (execution_changed e.id) >> pure true else get_by_id e.id >> pure false

    late_result-IsQuiet : IsQuiet (schedule_result e.id non_terminal_statuses r result) w
    unfolding schedule_result
    late_result-IsQuiet =
        let write = update_schedule_result e.id non_terminal_statuses r result in
        IsQuiet-bind write report_back w late_write-IsQuiet (λ b h. rw (late_write-misses b h) (
          IsQuiet-bind (get_by_id e.id) (λ _. pure false) (write w).1
            (get_by_id-IsQuiet e.id (write w).1)
            (λ x _. IsQuiet-pure false (get_by_id e.id (write w).1).1)))

    late_result-misses :
        (b : Bool) → (schedule_result e.id non_terminal_statuses r result w).0 ≡ ok b → b ≡ false
    unfolding schedule_result pure
    late_result-misses b h =
        let write = update_schedule_result e.id non_terminal_statuses r result in
        let split = bind-ok write report_back w b h in
        let none = late_write-misses split.0 split.1 in
        let v = (write w).1 in
        let read : ((get_by_id e.id >> pure false) v).0 ≡ ok b =
          ap (λ k. (report_back k v).0) (sym none) ∙ sym (ap (λ x. x.0) split.2) ∙ h in
        let inner = bind-ok (get_by_id e.id) (λ _. pure false) v b read in
        sym (ok-bool false b (sym (ap (λ x. x.0) inner.2) ∙ read))

module _ (others : ℕ → World → World) (ev : CompleteEvent) (w : World) (e : TaskExecution)
    (sound : IsSound w) (stands : Member e w.executions) (id : e.id ≡ ev.exec_id)
    (ended : is_terminal_status e.status ≡ true) where
  abbrev result_of : ℕ → ExecutionStatus × ℤ → Action Bool
  result_of now final =
      schedule_result ev.exec_id non_terminal_statuses (final_report now ev final) ev.task_result

  abbrev after : ExecutionStatus × ℤ → Bool → Action (Unit {0})
  after final updated =
      if not updated || ev.task_id == 0 then pure tt else move_on others ev final.0

  finish-IsQuiet : (final : ExecutionStatus × ℤ) → IsQuiet (finish others ev final) w
  unfolding finish gets
  finish-IsQuiet final =
      IsQuiet-bind (gets (λ v. v.now)) (λ now. result_of now final >>= after final) w
        (IsQuiet-gets (λ v. v.now) w)
        (λ now _.
          IsQuiet-bind (result_of now final) (after final) w
            (rw⁻¹ id (
              late_result-IsQuiet w sound e stands ended (final_report now ev final)
                ev.task_result))
            (λ b h.
              rw
                (late_result-misses w sound e stands ended (final_report now ev final)
                  ev.task_result b (rw id h))
                (IsQuiet-pure tt (result_of now final w).1)))

-- A completion of an execution that has already ended (a repeated or a late message) changes
-- nothing: no table, no message, no notice; only faults are consumed.
pub handle_task-repeated :
    (others : ℕ → World → World) (ev : CompleteEvent) (w : World) (e : TaskExecution)
    → IsSound w
    → Member e w.executions
    → e.id ≡ ev.exec_id
    → is_terminal_status e.status ≡ true
    → (rest : List Bool) × ((handle_task others ev w).1 ≡ record w { faults = rest })
unfolding handle_task throw
handle_task-repeated others ev w e sound stands id ended =
    IsQuiet-bind (throw (completion_state ev.exec_status)) (finish others ev) w
      (IsQuiet-throw (completion_state ev.exec_status) w)
      (λ final _. finish-IsQuiet others ev w e sound stands id ended final)
