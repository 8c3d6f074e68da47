-- ===== src/Pool.antt =====
-- Execution pools: the tables, who may use a pool, and the bindings of tenants.
pub mod Matcher
pub mod Tables
pub mod Binding
pub mod Agreement
pub mod Allowed
pub mod Usable
pub mod Names
pub mod Answers
pub mod Inserted
pub mod Created
pub mod Checks
pub mod Binds
pub mod Bound
