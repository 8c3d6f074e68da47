-- ===== src/Cancellation.antt =====
-- The cancellations: internal/repository/dao/execution_cancellation.go and the termination service.
pub mod Requests
pub mod Delivery
pub mod Backoff
