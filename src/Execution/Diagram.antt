-- ===== src/Execution/Diagram.antt =====
-- The life of an execution: the diagram of its states, the rows that one row may become, and the
-- tables that a table may become. The modules below show that the statements and the services stay
-- within it.
pub mod Steps
pub mod Rules
pub mod Statements
pub mod Claims
