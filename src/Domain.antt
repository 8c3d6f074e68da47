-- ===== src/Domain.antt =====
-- The domain types of internal/domain: statuses, sources, routes, and the rows of an execution.
pub mod Status
pub mod Route
pub mod Execution
pub mod Task
pub mod Cancellation
pub mod Params
pub mod Codebook
pub mod Pool
pub mod Overrides
pub mod Notification
