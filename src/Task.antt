-- ===== src/Task.antt =====
-- The tasks: the statements of internal/repository/dao/task.go and the services on them.
pub mod Table
pub mod Changes
pub mod Service
pub mod Overrides
pub mod Accepting
pub mod Accepted
pub mod Lock
