-- ===== src/Task/Lock.antt =====
-- The optimistic lock on a task: what may become of a row, and of the table of tasks.
pub mod Rows
pub mod Statements
pub mod Edits
pub mod Races
