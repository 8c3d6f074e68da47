-- ===== src/Execution.antt =====
-- The executions: the statements of internal/repository/dao/task_execution.go and the services on
-- them.
pub mod Table
pub mod Updates
pub mod Queries
pub mod Service
pub mod Completion
pub mod Diagram
