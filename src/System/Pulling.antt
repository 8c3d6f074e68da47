-- ===== src/System/Pulling.antt =====
-- Who gets an execution that waits to be pulled (`ClaimPullTask` of
-- internal/repository/dao/task_execution.go).
use etask.Base.{
  ℕ, ◌≡◌, ◌≢◌, sym, ap, ◌∙◌, subst, arith, true, List, [], ◌∷◌, String, Option, none, some, Member,
  ◌==◌, if◌then◌else◌, sort_by, keep_where, head?-Member, Member-sort_by, Member-keep_where,
  update_where-Member,
}
use etask.Errs.{Result, ok, err, execution_not_found}
use etask.Domain.Status.{waiting_pull, running, same_status, same_status-eq}
use etask.Domain.Execution.{TaskExecution}
use etask.Store.{World}
use etask.Store.Action.{Action, pure, fail, throw, gets, ◌>>=◌}
use etask.Store.Inversion.{bind-ok, statement-ok, transaction-ok}
use etask.Execution.Table.{has_id, update_executions, change_rows, select_executions, found_or}
use etask.Execution.Queries.{
  claim_locked, claim_pull_task, pull_candidates, still_waits, claimed_by, is_nil,
}
use etask.Execution.Diagram.Rules.{select_executions-reads}
use etask.Execution.Diagram.Claims.{claim_pull_task-Evolves, first_waiting, write_claim}
use etask.System.Safety.{IsSound, Evolves-IsSound, Keyed-unique}
use etask.System.Once.{select-IsQuiet}

-- A claim of `e` at the time `now` that has found its row waiting.
record IsClaim (now : ℕ) (node : String) (w v : World) (e : TaskExecution) : Type 0 where
  pub row : TaskExecution
  pub stood : Member row w.executions
  pub waited : row.status ≡ waiting_pull
  pub is : e ≡ claimed_by now node row row
  pub stands : Member e v.executions

found-ok :
    (found : Option TaskExecution) (e : TaskExecution)
    → found_or (err execution_not_found) found ≡ ok e
    → found ≡ some e
unfolding found_or
found-ok none e h = absurd (ground arith)
found-ok (some x) e h = cc

ok-execution : (a b : TaskExecution) → ok a ≡ ok b → a ≡ b
ok-execution a b h = cc

self-id : (i : ℕ) → (i == i) ≡ true
self-id i = ground arith

write_claim-ok :
    (now : ℕ) (node : String) (x e : TaskExecution) (w : World)
    → Member x w.executions
    → (write_claim now node x w).0 ≡ ok e
    → (e ≡ claimed_by now node x x) × Member e (write_claim now node x w).1.executions
unfolding update_executions pure
write_claim-ok now node x e w m h =
    let f = claimed_by now node x in
    let write = update_executions (has_id x.id) f in
    let split = bind-ok write (λ _. pure (f x)) w e h in
    let done = statement-ok (change_rows (has_id x.id) f) w split.0 split.1 in
    let is = sym (ok-execution (f x) e (sym (ap (λ v. v.0) split.2) ∙ h)) in
    (
      is,
      rw is (
          subst (λ (v : World). Member (f x) v.executions)
            (sym (ap (λ v. v.1) split.2 ∙ ap (λ v. v.1) done.1))
            (update_where-Member (has_id x.id) f x w.executions m (self-id x.id))),
    )

first_waiting-waits :
    (ids : List ℕ) (w : World) (x : TaskExecution)
    → first_waiting ids w ≡ some x
    → Member x w.executions × (x.status ≡ waiting_pull)
first_waiting-waits ids w x e =
    let sorted =
      Member-sort_by (λ y. y.snapshot.ctime) x (keep_where (still_waits ids) w.executions)
        (head?-Member x
          (sort_by (λ y. y.snapshot.ctime) (keep_where (still_waits ids) w.executions)) e) in
    let kept = Member-keep_where (still_waits ids) x w.executions sorted in
    (kept.0, same_status-eq x.status waiting_pull (waits-status ids x kept.1))
  where
    waits-status :
        (ids : List ℕ) (x : TaskExecution)
        → still_waits ids x ≡ true
        → same_status x.status waiting_pull ≡ true
    waits-status ids x h = ground arith

chosen_row-IsClaim :
    (ids : List ℕ) (now : ℕ) (node : String) (found : Option TaskExecution) (w : World)
    (e : TaskExecution)
    → first_waiting ids w ≡ found
    → ((throw (found_or (err execution_not_found) found) >>= write_claim now node) w).0 ≡ ok e
    → IsClaim now node w
        ((throw (found_or (err execution_not_found) found) >>= write_claim now node) w).1
        e
unfolding throw
chosen_row-IsClaim ids now node found w e read h =
    let chosen : Action TaskExecution = throw (found_or (err execution_not_found) found) in
    let split = bind-ok chosen (write_claim now node) w e h in
    let x = split.0 in
    let waits = first_waiting-waits ids w x (read ∙ found-ok found x split.1) in
    let wrote = write_claim-ok now node x e w waits.0 (sym (ap (λ v. v.0) split.2) ∙ h) in
    record {
      row = x;
      stood = waits.0;
      waited = waits.1;
      is = wrote.0;
      stands =
          subst (λ (v : Result TaskExecution × World). Member e v.1.executions) (sym split.2)
            wrote.1;
    }

claim_locked-IsClaim :
    (ids : List ℕ) (now : ℕ) (node : String) (w : World) (e : TaskExecution)
    → (claim_locked ids now node w).0 ≡ ok e
    → IsClaim now node w (claim_locked ids now node w).1 e
unfolding claim_locked select_executions gets
claim_locked-IsClaim ids now node w e h =
    let rest : Option TaskExecution → Action TaskExecution =
      λ found. throw (found_or (err execution_not_found) found) >>= write_claim now node in
    let read : Action (Option TaskExecution) = select_executions (first_waiting ids) in
    let whole = transaction-ok (read >>= rest) w e h in
    let split = bind-ok read rest w e whole.1 in
    let done = statement-ok (gets (first_waiting ids)) w split.0 split.1 in
    let same : (read w).1.executions ≡ w.executions =
      ap (λ (v : Result (Option TaskExecution) × World). v.1.executions) done.1 in
    let got =
      chosen_row-IsClaim ids now node split.0 (read w).1 e
        (sym (select_executions-reads (first_waiting ids) w split.0 split.1))
        (sym (ap (λ v. v.0) split.2) ∙ whole.1) in
    record {
      row = got.row;
      stood = subst (Member got.row) same got.stood;
      waited = got.waited;
      is = got.is;
      stands =
          subst (Member e)
            (sym (
              ap (λ (v : Result TaskExecution × World). v.1.executions) whole.2
              ∙ ap (λ (v : Result TaskExecution × World). v.1.executions) split.2))
            got.stands;
    }

module _ (service node : String) (handlers : List String) (w : World) (e : TaskExecution) where
  abbrev from_ids : List ℕ → Action TaskExecution
  from_ids ids = if is_nil ids then fail execution_not_found else claim_locked ids w.now node

  from_ids-IsClaim :
      (ids : List ℕ) (v : World)
      → v.executions ≡ w.executions
      → (from_ids ids v).0 ≡ ok e
      → IsClaim w.now node w (from_ids ids v).1 e
  unfolding fail
  from_ids-IsClaim [] v same h = absurd (ground arith)
  from_ids-IsClaim (i ∷ is) v same h =
      let got = claim_locked-IsClaim (i ∷ is) w.now node v e h in
      record {
        row = got.row;
        stood = subst (Member got.row) same got.stood;
        waited = got.waited;
        is = got.is;
        stands = got.stands;
      }

  candidates_then-IsClaim :
      ((pull_candidates service handlers >>= from_ids) w).0 ≡ ok e
      → IsClaim w.now node w ((pull_candidates service handlers >>= from_ids) w).1 e
  unfolding pull_candidates
  candidates_then-IsClaim h =
      let read = pull_candidates service handlers in
      let split = bind-ok read from_ids w e h in
      let quiet = select-IsQuiet _ w in
      let same : (read w).1.executions ≡ w.executions = ap (λ (v : World). v.executions) quiet.1 in
      let got = from_ids-IsClaim split.0 (read w).1 same (sym (ap (λ v. v.0) split.2) ∙ h) in
      record {
        row = got.row;
        stood = got.stood;
        waited = got.waited;
        is = got.is;
        stands =
            subst (λ (v : Result TaskExecution × World). Member e v.1.executions) (sym split.2)
              got.stands;
      }

claim_pull_task-IsClaim :
    (service node : String) (handlers : List String) (w : World) (e : TaskExecution)
    → (claim_pull_task service node handlers w).0 ≡ ok e
    → IsClaim w.now node w (claim_pull_task service node handlers w).1 e
unfolding claim_pull_task fail gets ◌>>=◌
claim_pull_task-IsClaim service node [] w e h = absurd (ground arith)
claim_pull_task-IsClaim service node (x ∷ xs) w e h =
    candidates_then-IsClaim service node (x ∷ xs) w e h

running-waits : running ≢ waiting_pull
running-waits h = ground arith

-- Of two pulls, one after the other, by whatever nodes for whatever handlers, the second does not
-- get the execution that the first got.
pub claim_pull_task-once :
    (service node service' node' : String) (handlers handlers' : List String) (w : World)
    (e e' : TaskExecution)
    → IsSound w
    → (claim_pull_task service node handlers w).0 ≡ ok e
    → (claim_pull_task service' node' handlers' (claim_pull_task service node handlers w).1).0
      ≡ ok e'
    → e'.id ≢ e.id
claim_pull_task-once service node service' node' handlers handlers' w e e' sound h again same =
    let v = (claim_pull_task service node handlers w).1 in
    let c = claim_pull_task-IsClaim service node handlers w e h in
    let sound' = Evolves-IsSound w v sound ((claim_pull_task-Evolves service node handlers).at w) in
    let d = claim_pull_task-IsClaim service' node' handlers' v e' again in
    let ids : d.row.id ≡ e.id = sym (ap (λ (y : TaskExecution). y.id) d.is) ∙ same in
    let one : d.row ≡ e =
      Keyed-unique v.next_execution_id d.row e v.executions sound'.executions_keyed d.stood c.stands
        ids in
    running-waits (
      sym (ap (λ (y : TaskExecution). y.status) c.is)
      ∙ sym (ap (λ (y : TaskExecution). y.status) one)
      ∙ d.waited)
