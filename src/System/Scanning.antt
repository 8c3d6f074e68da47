-- ===== src/System/Scanning.antt =====
-- What a scan for due tasks gives out (`FindScheduleTasks` of internal/repository/dao/task.go), and
-- the submission of a workflow that has been submitted before (`CreateWorkflow` of
-- internal/service/task/execution_service.go).
use etask.Base.{
  ℕ, ◌+◌, ◌≤◌, ◌≡◌, sym, ap, ◌∙◌, subst, arith, Bool, true, false, List, String, Option, some,
  Member, sort_by, keep_where, take, any_where, first_where, Member-take, Member-sort_by,
  Member-keep_where, trim_space, ◌⊎◌,
}
use etask.Errs.{Result, ok}
use etask.Domain.Status.{source_workflow}
use etask.Domain.Route.{is_empty}
use etask.Domain.Execution.{TaskExecution}
use etask.Domain.Task.{Task, active, preempted}
use etask.Store.{World}
use etask.Store.Action.{gets}
use etask.Store.Inversion.{statement-ok}
use etask.Store.Quiet.{IsQuiet, IsQuiet-pure, IsQuiet-bind}
use etask.Execution.Table.{find_by_request_id, requested, select_executions}
use etask.Task.Table.{select_tasks}
use etask.Task.Changes.{find_schedule_tasks, is_schedulable, is_open_for}
use etask.Dispatch.Creation.{create_workflow, existing_or_new, text_or_empty}
use etask.System.Once.{select-IsQuiet}

tasks-of : (a b : List Task) → ok a ≡ ok b → a ≡ b
tasks-of a b h = cc

option-of : (a b : Option TaskExecution) → ok a ≡ ok b → a ≡ b
option-of a b h = cc

find-IsQuiet : (r : String) (w : World) → IsQuiet (find_by_request_id source_workflow r) w
unfolding find_by_request_id
find-IsQuiet r w = select-IsQuiet (λ v. first_where (requested source_workflow r) v.executions) w

schedulable-means :
    (now timeout : ℕ) (w : World) (t : Task)
    → is_schedulable now timeout w t ≡ true
    → (t.next_time ≤ now)
      × ((t.status ≡ active)
          ⊎ ((t.status ≡ preempted)
              × (t.utime + timeout ≤ now)
              × (any_where (is_open_for t) w.executions ≡ false)))
schedulable-means now timeout w t h = ground arith

-- A task that the scan gives out stands in the table and is due; and it is active, or its lease has
-- run out and none of its executions is still open.
pub find_schedule_tasks-due :
    (timeout limit : ℕ) (w : World) (ts : List Task) (t : Task)
    → (find_schedule_tasks timeout limit w).0 ≡ ok ts
    → Member t ts
    → Member t w.tasks
      × (t.next_time ≤ w.now)
      × ((t.status ≡ active)
          ⊎ ((t.status ≡ preempted)
              × (t.utime + timeout ≤ w.now)
              × (any_where (is_open_for t) w.executions ≡ false)))
unfolding find_schedule_tasks select_tasks gets
find_schedule_tasks-due timeout limit w ts t h m =
    let p : Task → Bool = is_schedulable w.now timeout w in
    let due = keep_where p w.tasks in
    let read : World → List Task = λ v.
      take limit
        (sort_by (λ x. x.next_time) (keep_where (is_schedulable v.now timeout v) v.tasks)) in
    let done = statement-ok (gets read) w ts h in
    let is : take limit (sort_by (λ x. x.next_time) due) ≡ ts =
      tasks-of (take limit (sort_by (λ x. x.next_time) due)) ts (ap (λ v. v.0) (sym done.1) ∙ h) in
    let taken =
      Member-take limit t (sort_by (λ x. x.next_time) due) (subst (Member t) (sym is) m) in
    let kept = Member-keep_where p t w.tasks (Member-sort_by (λ x. x.next_time) t due taken) in
    let means = schedulable-means w.now timeout w t kept.1 in (kept.0, means.0, means.1)

module _ (e found : TaskExecution) (w : World)
    (there : first_where (requested source_workflow (text_or_empty e.request_id)) w.executions
      ≡ some found) where
  found-again :
      (f : Option TaskExecution)
      → (find_by_request_id source_workflow (text_or_empty e.request_id) w).0 ≡ ok f
      → f ≡ some found
  unfolding find_by_request_id select_executions gets
  found-again f h =
      let r = text_or_empty e.request_id in
      let done =
        statement-ok (gets (λ v. first_where (requested source_workflow r) v.executions)) w f h in
      sym (
        option-of (first_where (requested source_workflow r) w.executions) f
          (ap (λ v. v.0) (sym done.1) ∙ h))
      ∙ there

  -- A workflow execution that is submitted again under a request id that the table holds changes
  -- nothing: no second record, no message.
  pub create_workflow-again :
      (permitted : Result (Unit {0}))
      → is_empty (trim_space (text_or_empty e.request_id)) ≡ false
      → (rest : List Bool) × ((create_workflow permitted e w).1 ≡ record w { faults = rest })
  unfolding create_workflow existing_or_new
  create_workflow-again permitted named =
      let r = text_or_empty e.request_id in
      let find = find_by_request_id source_workflow r in
      rw named (
        IsQuiet-bind find (existing_or_new permitted e r) w (find-IsQuiet r w)
          (λ f h. rw (found-again f h) (IsQuiet-pure (found, false) (find w).1)))
