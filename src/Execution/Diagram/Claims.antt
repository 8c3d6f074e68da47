-- ===== src/Execution/Diagram/Claims.antt =====
-- The writes that are no conditional update of one row: inserting an execution, and claiming a
-- pulled one, which reads a row and writes it by its id.
use etask.Base.{
  ltb, suc, false, ◌≤◌, ◌<◌, if◌then◌else◌, ℕ, ◌≡◌, refl, sym, inl, inr, true, List, [], ◌∷◌, arith,
  Member, Bool-cases, String, Option, none, some, any_where, keep_where, Member-keep_where,
  Member-sort_by, head?-Member, sort_by, head?,
}
use etask.Errs.{ok, err, execution_not_found}
use etask.Domain.Status.{waiting_pull, is_terminal_status, same_status-eq}
use etask.Domain.Execution.{TaskExecution}
use etask.Store.{World}
use etask.Store.Action.{Action, pure, throw, ◌>>=◌}
use etask.Store.Obeys.{
  Obeys, Obeys-statement, Obeys-bind_at, Obeys-transaction, Obeys-throw, Obeys-pure,
  Obeys-statement_at,
}
use etask.Execution.Table.{
  has_id, update_executions, change_rows, select_executions, insert_row, stamped, clashes, create,
  create_and_consume_override, delete_overrides, found_or,
}
use etask.Execution.Queries.{
  claim_locked, claim_pull_task, pull_candidates, still_waits, claimed_by,
}
use etask.Execution.Diagram.Steps.{
  here, onwards, pulled, Advance, Grows-refl, Grows-append, Keyed-append, Absent, Evolves,
}
use etask.Task.Lock.Rows.{Kept-refl}
use etask.Execution.Diagram.Rules.{
  Evolves-Evolution, select_executions-Evolves, select_executions-reads, Grows-update_by_id,
  Grows-Keyed,
}
use etask.Execution.Diagram.Statements.{evolves_rules}

free-Absent :
    (row : TaskExecution) (xs : List TaskExecution)
    → any_where (clashes row) xs ≡ false
    → Absent row.id xs
free-Absent row [] h = tt
free-Absent row (x ∷ xs) h = elim (Bool-cases (clashes row x)) [
  | inl e ↦ absurd (ground arith)
  | inr e ↦ (λ same. absurd (ground arith), free-Absent row xs (ground arith))
]

counter : ℕ → ℕ → ℕ
counter i next = if ltb i next then next else suc i

counter-past : (i next : ℕ) → (next ≤ counter i next) × (i < counter i next)
unfolding counter
counter-past i next = (ground arith, ground arith)

insert_row-obeys : (e : TaskExecution) (w : World) → Evolves w (insert_row e w).1
unfolding counter
insert_row-obeys e w k =
    let row = stamped w e in
    elim (Bool-cases (any_where (clashes row) w.executions)) [
      | inl taken ↦ rw taken (record {
        keyed = k;
        grows = Grows-refl w.executions;
        tasks_kept = Kept-refl w.next_task_id w.tasks;
      })
      | inr free ↦
          let past = counter-past row.id w.next_execution_id in
          rw free (record {
            keyed =
                Keyed-append w.next_execution_id (counter row.id w.next_execution_id) w.executions
                  row k past.0 past.1 (free-Absent row w.executions free);
            grows = Grows-append w.executions (row ∷ []);
            tasks_kept = Kept-refl w.next_task_id w.tasks;
          })
    ]

pub create-Evolves : (e : TaskExecution) → Obeys Evolves (create e)
unfolding create
create-Evolves e =
    Obeys-statement Evolves-Evolution (insert_row e) (record { at = insert_row-obeys e })

pub delete_overrides-Evolves : (i : ℕ) → Obeys Evolves (delete_overrides i)
delete_overrides-Evolves i = record {
  at = λ w k. record {
    keyed = k;
    grows = Grows-refl w.executions;
    tasks_kept = Kept-refl w.next_task_id w.tasks;
  };
}

pub create_and_consume_override-Evolves :
    (e : TaskExecution) (i : ℕ) → Obeys Evolves (create_and_consume_override e i)
unfolding create_and_consume_override
create_and_consume_override-Evolves e i =
    search (evolves_rules, create-Evolves, delete_overrides-Evolves) depth 9

-- The row that the second phase read still waits, and its id is its own.
claimed-advances :
    (ids : List ℕ) (now : ℕ) (node : String) (chosen : TaskExecution)
    → still_waits ids chosen ≡ true
    → Advance chosen (claimed_by now node chosen chosen)
unfolding is_terminal_status
claimed-advances ids now node chosen h =
    let e : chosen.status ≡ waiting_pull =
      same_status-eq chosen.status waiting_pull (ground arith) in
    record {
      snapshot_kept = refl;
      path = rw e (onwards pulled here);
      terminal_kept = λ t. ground arith;
    }

write_claim-Evolves :
    (ids : List ℕ) (now : ℕ) (node : String) (chosen : TaskExecution) (w : World)
    → Member chosen w.executions
    → still_waits ids chosen ≡ true
    → Evolves w (update_executions (has_id chosen.id) (claimed_by now node chosen) w).1
unfolding update_executions
write_claim-Evolves ids now node chosen w m h =
    Obeys-statement_at Evolves-Evolution
      (change_rows (has_id chosen.id) (claimed_by now node chosen)) w
      λ rest k.
        let g =
          Grows-update_by_id w.next_execution_id chosen (claimed_by now node chosen) w.executions k
            m (claimed-advances ids now node chosen h) in
        record {
          keyed =
              Grows-Keyed w.next_execution_id (has_id chosen.id) (claimed_by now node chosen)
                w.executions k g;
          grows = g;
          tasks_kept = Kept-refl w.next_task_id w.tasks;
        }

abbrev pub first_waiting : List ℕ → World → Option TaskExecution
first_waiting ids w =
    head? (sort_by (λ e. e.snapshot.ctime) (keep_where (still_waits ids) w.executions))

abbrev pub write_claim : ℕ → String → TaskExecution → Action TaskExecution
write_claim now node chosen =
    update_executions (has_id chosen.id) (claimed_by now node chosen) >>= λ _.
    pure (claimed_by now node chosen chosen)

ok-injective : (a b : TaskExecution) → ok b ≡ ok a → a ≡ b
ok-injective a b h = cc

write_read-Evolves :
    (ids : List ℕ) (now : ℕ) (node : String) (chosen : TaskExecution) (w : World)
    → first_waiting ids w ≡ some chosen
    → Evolves w (write_claim now node chosen w).1
write_read-Evolves ids now node chosen w e =
    let sorted =
      Member-sort_by (λ x. x.snapshot.ctime) chosen (keep_where (still_waits ids) w.executions)
        (head?-Member chosen
          (sort_by (λ x. x.snapshot.ctime) (keep_where (still_waits ids) w.executions)) e) in
    let kept = Member-keep_where (still_waits ids) chosen w.executions sorted in
    Obeys-bind_at Evolves-Evolution
      (update_executions (has_id chosen.id) (claimed_by now node chosen))
      (λ _. pure (claimed_by now node chosen chosen)) w
      (write_claim-Evolves ids now node chosen w kept.0 kept.1)
      (λ _ _.
        (Obeys-pure Evolves-Evolution (claimed_by now node chosen chosen)).at
          (update_executions (has_id chosen.id) (claimed_by now node chosen) w).1)

after_read-Evolves :
    (ids : List ℕ) (now : ℕ) (node : String) (found : Option TaskExecution) (w : World)
    → found ≡ first_waiting ids w
    → Evolves w ((throw (found_or (err execution_not_found) found) >>= write_claim now node) w).1
unfolding found_or throw
after_read-Evolves ids now node none w e =
    Obeys-bind_at Evolves-Evolution (throw (err execution_not_found)) (write_claim now node) w
      ((Obeys-throw {A = TaskExecution} Evolves-Evolution (err execution_not_found)).at w)
      (λ chosen got. cc)
after_read-Evolves ids now node (some chosen) w e =
    Obeys-bind_at Evolves-Evolution (throw (ok chosen)) (write_claim now node) w
      ((Obeys-throw Evolves-Evolution (ok chosen)).at w)
      (λ a got. rw (ok-injective a chosen got) (write_read-Evolves ids now node chosen w (sym e)))

pub claim_locked-Evolves :
    (ids : List ℕ) (now : ℕ) (node : String) → Obeys Evolves (claim_locked ids now node)
unfolding claim_locked
claim_locked-Evolves ids now node =
    Obeys-transaction Evolves-Evolution
      (select_executions (first_waiting ids) >>= λ found.
        throw (found_or (err execution_not_found) found) >>= write_claim now node)
      (record {
        at = λ w.
            Obeys-bind_at Evolves-Evolution (select_executions (first_waiting ids))
              (λ found. throw (found_or (err execution_not_found) found) >>= write_claim now node) w
              ((select_executions-Evolves (first_waiting ids)).at w)
              (λ found got.
                after_read-Evolves ids now node found (select_executions (first_waiting ids) w).1
                  (select_executions-reads (first_waiting ids) w found got));
      })

pub claim_pull_task-Evolves :
    (service node : String) (handlers : List String)
    → Obeys Evolves (claim_pull_task service node handlers)
unfolding claim_pull_task pull_candidates
claim_pull_task-Evolves service node handlers = search (evolves_rules, claim_locked-Evolves) depth 9
