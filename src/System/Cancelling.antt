-- ===== src/System/Cancelling.antt =====
-- The cancellation service (internal/service/termination/service.go) keeps the tables evolving.
use etask.Base.{ℕ, refl, Option, none, some, String, List, [], ◌∷◌}
use etask.Errs.{Result, ok, err}
use etask.Domain.Status.{non_terminal_statuses, cancelled}
use etask.Domain.Execution.{TaskExecution}
use etask.Domain.Route.{Transport, grpc, mq}
use etask.Domain.Task.{Task, TaskStatus}
use etask.Domain.Cancellation.{ExecutionCancellation}
use etask.Store.Obeys.{Obeys}
use etask.Execution.Diagram.Steps.{Evolves, was_cancelled}
use etask.Execution.Diagram.Statements.{
  evolves_rules, conditional_update, get_by_id-Evolves, non_terminal-permits,
}
use etask.Execution.Queries.{find_non_terminal_by_task_id}
use etask.Task.Table.{freed}
use etask.Task.Lock.Rows.{Bumps-Locked, Locked}
use etask.Task.Lock.Statements.{freed-Bumps, task_rules}
use etask.System.Frame.{update_cancellations-Evolves, insert_cancellation-Evolves}
use etask.Cancellation.Requests.{
  resolve_request_id, lock_target, lock_cancellation, lock_or_create_cancellation, keep_waiting,
  cancel_execution, release_on_cancellation, schedule_delivery, bind_cancellation, bind_or_wait,
  request_cancellation, attach_found, attach,
}
use etask.Cancellation.Delivery.{
  list_pending, mark_sent, mark_failed, send_signal, terminate, signal_if_open, settle_delivery,
  deliver, deliver_all, deliver_pending, request, request_execution, terminate_each,
  terminate_active_by_task_id, attach_by, attach_execution,
}

ruleset cancel_rules = (
  evolves_rules, task_rules, update_cancellations-Evolves, insert_cancellation-Evolves,
  get_by_id-Evolves,
)

resolve_request_id-Evolves : (i : ℕ) (r : String) → Obeys Evolves (resolve_request_id i r)
unfolding resolve_request_id
resolve_request_id-Evolves i r = search cancel_rules depth 12

lock_target-Evolves : (i : ℕ) (r : String) → Obeys Evolves (lock_target i r)
unfolding lock_target
lock_target-Evolves i r = search cancel_rules

lock_cancellation-Evolves : (r : String) → Obeys Evolves (lock_cancellation r)
unfolding lock_cancellation
lock_cancellation-Evolves r = search cancel_rules

lock_or_create_cancellation-Evolves :
    (r reason : String) → Obeys Evolves (lock_or_create_cancellation r reason)
unfolding lock_or_create_cancellation
lock_or_create_cancellation-Evolves r reason =
    search (cancel_rules, lock_cancellation-Evolves) depth 9

keep_waiting-Evolves : (i : ℕ) (reason : String) → Obeys Evolves (keep_waiting i reason)
unfolding keep_waiting
keep_waiting-Evolves i reason = search cancel_rules depth 8

cancel_execution-Evolves : (i : ℕ) (reason : String) → Obeys Evolves (cancel_execution i reason)
unfolding cancel_execution
cancel_execution-Evolves i reason =
    search
      (
        cancel_rules,
        λ (now : ℕ).
            conditional_update i non_terminal_statuses cancelled
              (λ e. record e { status = cancelled; etime = now; task_result = reason; utime = now })
              (non_terminal-permits cancelled was_cancelled) (λ x. (refl, refl)),
      )
      depth 9

freed-Locked : (status : TaskStatus) (now : ℕ) (x : Task) → Locked x (freed status now x)
freed-Locked status now = Bumps-Locked (freed status now) (freed-Bumps status now)

release_on_cancellation-Evolves : (e : TaskExecution) → Obeys Evolves (release_on_cancellation e)
unfolding release_on_cancellation
release_on_cancellation-Evolves e = search (cancel_rules, freed-Locked) depth 10

schedule_delivery-Evolves :
    (c : ExecutionCancellation) (i : ℕ) (reason : String)
    → Obeys Evolves (schedule_delivery c i reason)
unfolding schedule_delivery
schedule_delivery-Evolves c i reason = search cancel_rules depth 8

bind_cancellation-Evolves :
    (c : ExecutionCancellation) (e : TaskExecution) (reason : String)
    → Obeys Evolves (bind_cancellation c e reason)
unfolding bind_cancellation
bind_cancellation-Evolves c e reason =
    search
      (
        cancel_rules, cancel_execution-Evolves, release_on_cancellation-Evolves,
        schedule_delivery-Evolves,
      )
      depth 12

bind_or_wait-Evolves :
    (i : ℕ) (c : ExecutionCancellation) (reason : String) (e : Option TaskExecution)
    → Obeys Evolves (bind_or_wait i c reason e)
unfolding bind_or_wait
bind_or_wait-Evolves i c reason (some e) = bind_cancellation-Evolves c e reason
bind_or_wait-Evolves i c reason none = search (cancel_rules, keep_waiting-Evolves)

pub request_cancellation-Evolves :
    (i : ℕ) (r reason : String) → Obeys Evolves (request_cancellation i r reason)
unfolding request_cancellation
request_cancellation-Evolves i r reason =
    search
      (
        cancel_rules, resolve_request_id-Evolves, lock_or_create_cancellation-Evolves,
        lock_target-Evolves, bind_or_wait-Evolves,
      )
      depth 12

attach_found-Evolves : (i : ℕ) (c : Option ExecutionCancellation) → Obeys Evolves (attach_found i c)
unfolding attach_found
attach_found-Evolves i none = search cancel_rules
attach_found-Evolves i (some c) = search (cancel_rules, bind_cancellation-Evolves) depth 10

pub attach-Evolves : (i : ℕ) (r : String) → Obeys Evolves (attach i r)
unfolding attach
attach-Evolves i r = search (cancel_rules, lock_cancellation-Evolves, attach_found-Evolves) depth 9

list_pending-Evolves : (limit : ℕ) → Obeys Evolves (list_pending limit)
unfolding list_pending
list_pending-Evolves limit = search cancel_rules

mark_sent-Evolves : (i : ℕ) → Obeys Evolves (mark_sent i)
unfolding mark_sent
mark_sent-Evolves i = search cancel_rules depth 8

mark_failed-Evolves : (i next : ℕ) → Obeys Evolves (mark_failed i next)
unfolding mark_failed
mark_failed-Evolves i next = search cancel_rules depth 8

send_signal-Evolves :
    (t : Transport) (e : TaskExecution) (reason : String) → Obeys Evolves (send_signal t e reason)
unfolding send_signal
send_signal-Evolves grpc e reason = search cancel_rules
send_signal-Evolves mq e reason = search cancel_rules
send_signal-Evolves _ e reason = search cancel_rules

signal_if_open-Evolves :
    (c : ExecutionCancellation) (r : Result TaskExecution) → Obeys Evolves (signal_if_open c r)
unfolding signal_if_open terminate
signal_if_open-Evolves c (ok e) = search (cancel_rules, send_signal-Evolves) depth 9
signal_if_open-Evolves c (err x) = search cancel_rules

settle_delivery-Evolves :
    (c : ExecutionCancellation) (r : Result (Unit {0})) → Obeys Evolves (settle_delivery c r)
unfolding settle_delivery
settle_delivery-Evolves c (ok _) = mark_sent-Evolves c.id
settle_delivery-Evolves c (err x) = search (cancel_rules, mark_failed-Evolves) depth 9

deliver-Evolves : (c : ExecutionCancellation) → Obeys Evolves (deliver c)
unfolding deliver
deliver-Evolves c = search (cancel_rules, signal_if_open-Evolves, settle_delivery-Evolves) depth 10

deliver_all-Evolves : (cs : List ExecutionCancellation) → Obeys Evolves (deliver_all cs)
unfolding deliver_all
deliver_all-Evolves [] = search cancel_rules
deliver_all-Evolves (c ∷ cs) =
    let rest = deliver_all-Evolves cs in search (cancel_rules, deliver-Evolves) depth 9

pub deliver_pending-Evolves : (limit : ℕ) → Obeys Evolves (deliver_pending limit)
unfolding deliver_pending
deliver_pending-Evolves limit =
    search (cancel_rules, list_pending-Evolves, deliver_all-Evolves) depth 8

pub request-Evolves : (i : ℕ) (r reason : String) → Obeys Evolves (request i r reason)
unfolding request
request-Evolves i r reason = search (cancel_rules, request_cancellation-Evolves) depth 14

pub request_execution-Evolves :
    (i : ℕ) (reason : String) → Obeys Evolves (request_execution i reason)
unfolding request_execution
request_execution-Evolves i reason = search (cancel_rules, request_cancellation-Evolves) depth 14

terminate_each-Evolves :
    (es : List TaskExecution) (reason : String) → Obeys Evolves (terminate_each es reason)
unfolding terminate_each
terminate_each-Evolves [] reason = search cancel_rules
terminate_each-Evolves (e ∷ es) reason =
    let rest = terminate_each-Evolves es reason in
    search (cancel_rules, request_execution-Evolves) depth 9

pub terminate_active_by_task_id-Evolves :
    (i : ℕ) (reason : String) → Obeys Evolves (terminate_active_by_task_id i reason)
unfolding terminate_active_by_task_id find_non_terminal_by_task_id
terminate_active_by_task_id-Evolves i reason = search (cancel_rules, terminate_each-Evolves) depth 9

attach_by-Evolves : (e : TaskExecution) (r : Option String) → Obeys Evolves (attach_by e r)
unfolding attach_by
attach_by-Evolves e none = search cancel_rules
attach_by-Evolves e (some r) = search (cancel_rules, attach-Evolves) depth 10

pub attach_execution-Evolves : (e : TaskExecution) → Obeys Evolves (attach_execution e)
unfolding attach_execution
attach_execution-Evolves e = search (cancel_rules, attach_by-Evolves) depth 8
