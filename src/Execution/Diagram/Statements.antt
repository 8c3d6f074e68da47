-- ===== src/Execution/Diagram/Statements.antt =====
-- Every write of internal/repository/dao/task_execution.go keeps the executions within the diagram.
use etask.Base.{
  ℕ, ◌≡◌, refl, inl, inr, true, false, List, [], ◌∷◌, arith, Bool-cases, String, ℤ, Option, none,
  some,
}
use etask.Errs.{Err, Result, ok, err}
use etask.Domain.Status.{
  ExecutionStatus, running, is_terminal_status, non_terminal_statuses, status_in, same_status,
  same_status-eq,
}
use etask.Domain.Execution.{TaskExecution}
use etask.Store.Action.{try, ◌>>=◌}
use etask.Store.Obeys.{
  Evolution, Obeys, Obeys-statement, Obeys-bind_at, Obeys-bind, Obeys-transaction, Obeys-if,
  Obeys-gets, Obeys-throw, Obeys-fail, Obeys-pure, obeys_rules,
}
use etask.Execution.Table.{update_executions, find_by_id, get_by_id}
use etask.Execution.Updates.{
  in_status, update_status, Report, update_retry_result, update_schedule_result, set_running_state,
  start_running, update_progress, may_start, excuse_terminal, with_schedule_result,
  with_retry_result, with_running, with_progress,
}
use etask.Execution.Diagram.Steps.{
  ◌⟶◌, here, onwards, started, restarted, ended, retryable, rescheduled, EndsRun, Advance, Evolves,
}
use etask.Execution.Diagram.Rules.{
  Evolves-Evolution, update_executions-Evolves, select_executions-Evolves, Grows-update_by_id,
  Grows-Keyed,
}

pub ruleset evolves_rules =
    (obeys_rules, Evolves-Evolution, update_executions-Evolves, select_executions-Evolves)

-- What a write may do to a row in the state `s`: nothing to a terminal one, and one step else.
pub record Permits (s t : ExecutionStatus) : Type 0 where
  pub open_row : is_terminal_status s ≡ false
  pub step : s ⟶ t

-- A set of expected states from each of which the diagram leads to `t`.
abbrev pub AllPermit : List ExecutionStatus → ExecutionStatus → Type 0
AllPermit [] t = Unit
AllPermit (s ∷ ss) t = Permits s t × AllPermit ss t

Permits-of_in :
    (expected : List ExecutionStatus) (s t : ExecutionStatus)
    → AllPermit expected t
    → status_in expected s ≡ true
    → Permits s t
unfolding status_in
Permits-of_in [] s t a h = absurd (ground arith)
Permits-of_in (x ∷ xs) s t a h = elim (Bool-cases (same_status s x)) [
  | inl e ↦ rw (same_status-eq s x e) a.0
  | inr e ↦ Permits-of_in xs s t a.1 (ground arith)
]

Advance-by :
    (x y : TaskExecution) → y.snapshot ≡ x.snapshot → Permits x.status y.status → Advance x y
Advance-by x y e p = record {
  snapshot_kept = e;
  path = onwards p.step here;
  terminal_kept = λ t. cc p.open_row;
}

-- A conditional update by id and status that leads, from each state it expects, along the diagram.
pub conditional_update :
    (i : ℕ) (expected : List ExecutionStatus) (t : ExecutionStatus)
    (f : TaskExecution → TaskExecution)
    → AllPermit expected t
    → ((x : TaskExecution) → ((f x).snapshot ≡ x.snapshot) × ((f x).status ≡ t))
    → Obeys Evolves (update_executions (in_status i expected) f)
conditional_update i expected t f a h = update_executions-Evolves (in_status i expected) f (λ x p.
    Advance-by x (f x) (h x).0 (rw (h x).1 (Permits-of_in expected x.status t a (ground arith))))

pub update_status-Evolves :
    (i : ℕ) (expected : List ExecutionStatus) (t : ExecutionStatus)
    → AllPermit expected t
    → Obeys Evolves (update_status i expected t)
unfolding update_status
update_status-Evolves i expected t a =
    search
      (
        evolves_rules,
        λ (now : ℕ).
            conditional_update i expected t (λ e. record e { status = t; utime = now }) a
              (λ x. (refl, refl)),
      )
      depth 8

pub update_retry_result-Evolves :
    (i retry_count next_retry_time : ℕ) (expected : ExecutionStatus) (r : Report)
    → Permits expected r.status
    → Obeys Evolves (update_retry_result i retry_count next_retry_time (some expected) r)
unfolding update_retry_result
update_retry_result-Evolves i retry_count next_retry_time expected r a =
    search
      (
        evolves_rules,
        λ (now : ℕ).
            conditional_update i (expected ∷ []) r.status
              (with_retry_result now retry_count next_retry_time r) (a, tt) (λ x. (refl, refl)),
      )
      depth 8

pub update_schedule_result-Evolves :
    (i : ℕ) (expected : List ExecutionStatus) (r : Report) (result : String)
    → AllPermit expected r.status
    → Obeys Evolves (update_schedule_result i expected r result)
unfolding update_schedule_result
update_schedule_result-Evolves i expected r result a =
    search
      (
        evolves_rules,
        λ (now : ℕ).
            conditional_update i expected r.status (with_schedule_result now r result) a
              (λ x. (refl, refl)),
      )
      depth 8

pub find_by_id-Evolves : (i : ℕ) → Obeys Evolves (find_by_id i)
unfolding find_by_id
find_by_id-Evolves i = search evolves_rules

pub get_by_id-Evolves : (i : ℕ) → Obeys Evolves (get_by_id i)
unfolding get_by_id
get_by_id-Evolves i = search (evolves_rules, find_by_id-Evolves)

excuse_terminal-Evolves :
    (x : Err) (r : Result (Option TaskExecution)) → Obeys Evolves (excuse_terminal x r)
unfolding excuse_terminal
excuse_terminal-Evolves x (ok (some e)) = search evolves_rules
excuse_terminal-Evolves x (ok none) = search evolves_rules
excuse_terminal-Evolves x (err y) = search evolves_rules

recheck-Evolves : (i : ℕ) (x : Err) → Obeys Evolves (try (find_by_id i) >>= excuse_terminal x)
recheck-Evolves i x = search (evolves_rules, find_by_id-Evolves, excuse_terminal-Evolves)

may_start-permits : AllPermit may_start running
unfolding is_terminal_status
may_start-permits = (
  record { open_row = refl; step = started },
  (
    record { open_row = refl; step = restarted retryable },
    (record { open_row = refl; step = restarted rescheduled }, tt),
  ),
)

-- From each state that is not terminal a run may end.
pub non_terminal-permits : (t : ExecutionStatus) → EndsRun t → AllPermit non_terminal_statuses t
unfolding is_terminal_status
non_terminal-permits t e = (
  record { open_row = refl; step = ended refl e },
  (
    record { open_row = refl; step = ended refl e },
    (
      record { open_row = refl; step = ended refl e },
      (
        record { open_row = refl; step = ended refl e },
        (record { open_row = refl; step = ended refl e }, tt),
      ),
    ),
  ),
)

start_running-Evolves :
    (i : ℕ) (progress : ℤ) (node : String) (e : TaskExecution)
    → Obeys Evolves (start_running i progress node e)
unfolding start_running
start_running-Evolves i progress node e =
    search
      (
        evolves_rules,
        recheck-Evolves,
        λ (now : ℕ) (deadline : ℤ).
            conditional_update i may_start running (with_running now deadline progress node)
              may_start-permits (λ x. (refl, refl)),
      )
      depth 9

pub set_running_state-Evolves :
    (i : ℕ) (progress : ℤ) (node : String) → Obeys Evolves (set_running_state i progress node)
unfolding set_running_state
set_running_state-Evolves i progress node =
    search (evolves_rules, find_by_id-Evolves, start_running-Evolves) depth 8

-- Progress is no step: the status stays RUNNING.
progress-Advance :
    (i now : ℕ) (progress : ℤ) (node : String) (x : TaskExecution)
    → in_status i (running ∷ []) x ≡ true
    → Advance x (with_progress now progress node x)
unfolding status_in same_status is_terminal_status
progress-Advance i now progress node x h = record {
  snapshot_kept = refl;
  path = here;
  terminal_kept = λ t. ground arith;
}

pub update_progress-Evolves :
    (i : ℕ) (progress : ℤ) (node : String) → Obeys Evolves (update_progress i progress node)
unfolding update_progress
update_progress-Evolves i progress node =
    search
      (
        evolves_rules,
        recheck-Evolves,
        λ (now : ℕ).
            update_executions-Evolves (in_status i (running ∷ [])) (with_progress now progress node)
              (progress-Advance i now progress node),
      )
      depth 9
