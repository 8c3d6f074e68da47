-- ===== src/Domain/Cancellation.antt =====
-- internal/domain/execution_cancellation.go, internal/repository/dao/execution_cancellation.go
use etask.Base.{ℕ, String, Bool, true, false, Option}

pub data CancellationDeliveryStatus : Type 0 where
  waiting_execution pending sent : CancellationDeliveryStatus

pub record ExecutionCancellation : Type 0 where
  pub id : ℕ
  pub tenant_id : ℕ
  pub request_id : String
  pub execution_id : Option ℕ
  pub reason : String
  pub delivery_status : CancellationDeliveryStatus
  pub attempt_count : ℕ
  pub next_attempt_at : ℕ
  pub failing : Bool  -- `last_error` is not empty
  pub ctime : ℕ
  pub utime : ℕ

abbrev pub is_pending : CancellationDeliveryStatus → Bool
is_pending pending = true
is_pending _ = false

abbrev pub is_sent : CancellationDeliveryStatus → Bool
is_sent sent = true
is_sent _ = false
