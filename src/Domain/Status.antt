-- ===== src/Domain/Status.antt =====
-- internal/domain/task_execution.go: the states and the sources of an execution, the predicates
-- on them and the mapping to the wire enumeration.
use etask.Base.{
  ℕ, ◌≡◌, ◌⊎◌, Bool, true, false, ◌||◌, List, [], ◌∷◌, arith, ◌==◌, any_where, if◌then◌else◌,
}

pub data ExecutionStatus : Type 0 where
  unknown waiting_pull prepare running success failed : ExecutionStatus
  failed_retryable failed_rescheduled cancelled : ExecutionStatus

pub data ExecutionSource : Type 0 where
  source_task source_codebook_preview source_workflow : ExecutionSource

-- executorv1.ExecutionStatus
pub data ProtoStatus : Type 0 where
  proto_unknown proto_running proto_failed_retryable proto_failed_reschedulable : ProtoStatus
  proto_failed proto_success proto_cancelled : ProtoStatus

-- Go compares the strings behind the statuses; these numbers tell the same nine apart.
abbrev number_of : ExecutionStatus → ℕ
number_of unknown = 0
number_of waiting_pull = 1
number_of prepare = 2
number_of running = 3
number_of success = 4
number_of failed = 5
number_of failed_retryable = 6
number_of failed_rescheduled = 7
number_of cancelled = 8

unfoldable pub same_status : ExecutionStatus → ExecutionStatus → Bool
same_status s t = number_of s == number_of t

abbrev pub is_prepare : ExecutionStatus → Bool
is_prepare prepare = true
is_prepare _ = false

abbrev pub is_running : ExecutionStatus → Bool
is_running running = true
is_running _ = false

abbrev pub is_success : ExecutionStatus → Bool
is_success success = true
is_success _ = false

abbrev pub is_failed : ExecutionStatus → Bool
is_failed failed = true
is_failed _ = false

abbrev pub is_failed_retryable : ExecutionStatus → Bool
is_failed_retryable failed_retryable = true
is_failed_retryable _ = false

abbrev pub is_failed_rescheduled : ExecutionStatus → Bool
is_failed_rescheduled failed_rescheduled = true
is_failed_rescheduled _ = false

abbrev pub is_cancelled : ExecutionStatus → Bool
is_cancelled cancelled = true
is_cancelled _ = false

unfoldable pub is_terminal_status : ExecutionStatus → Bool
is_terminal_status s = is_success s || is_failed s || is_cancelled s

unfoldable pub is_valid_status : ExecutionStatus → Bool
is_valid_status unknown = false
is_valid_status _ = true

abbrev pub non_terminal_statuses : List ExecutionStatus
non_terminal_statuses =
    waiting_pull ∷ prepare ∷ running ∷ failed_retryable ∷ failed_rescheduled ∷ []

-- `status IN ?`
unfoldable pub status_in : List ExecutionStatus → ExecutionStatus → Bool
unfolding same_status
status_in l s = any_where (same_status s) l

abbrev pub is_codebook_preview : ExecutionSource → Bool
is_codebook_preview source_codebook_preview = true
is_codebook_preview _ = false

abbrev pub is_workflow : ExecutionSource → Bool
is_workflow source_workflow = true
is_workflow _ = false

abbrev pub allows_empty_task_id : ExecutionSource → Bool
allows_empty_task_id s = is_codebook_preview s || is_workflow s

unfoldable pub status_from_proto : ProtoStatus → ExecutionStatus
status_from_proto proto_running = running
status_from_proto proto_success = success
status_from_proto proto_failed = failed
status_from_proto proto_failed_retryable = failed_retryable
status_from_proto proto_failed_reschedulable = failed_rescheduled
status_from_proto proto_cancelled = cancelled
status_from_proto proto_unknown = unknown

unfoldable pub status_to_proto : ExecutionStatus → ProtoStatus
status_to_proto running = proto_running
status_to_proto success = proto_success
status_to_proto failed = proto_failed
status_to_proto failed_retryable = proto_failed_retryable
status_to_proto failed_rescheduled = proto_failed_reschedulable
status_to_proto cancelled = proto_cancelled
status_to_proto _ = proto_unknown

pub same_status-eq : (s t : ExecutionStatus) → same_status s t ≡ true → s ≡ t
unfolding same_status
same_status-eq s t h = ground arith

pub same_status_self : (s : ExecutionStatus) → same_status s s ≡ true
unfolding same_status
same_status_self s = ground arith

-- The wire enumeration survives a round trip, and the domain statuses that it carries do too;
-- WAITING_PULL and PREPARE, which never travel, come back as UNKNOWN.
pub status-proto-roundtrip :
    (p : ProtoStatus) (s : ExecutionStatus)
    → (status_to_proto (status_from_proto p) ≡ p)
      × ((status_from_proto (status_to_proto s) ≡ s)
          ⊎ ((status_from_proto (status_to_proto s) ≡ unknown)
              × ((s ≡ waiting_pull) ⊎ (s ≡ prepare))))
unfolding status_from_proto status_to_proto
status-proto-roundtrip p s = ground arith

-- `NonTerminalTaskExecutionStatuses` lists exactly the valid statuses that are not terminal.
pub non_terminal_statuses-exact :
    (s : ExecutionStatus)
    → status_in non_terminal_statuses s
      ≡ (if is_valid_status s then (if is_terminal_status s then false else true) else false)
unfolding status_in is_valid_status is_terminal_status
non_terminal_statuses-exact s = ground arith
