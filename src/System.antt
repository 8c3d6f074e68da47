-- ===== src/System.antt =====
-- The whole system: every operation of every node as one step, and what holds of every run.
pub mod Frame
pub mod Leases
pub mod Cancelling
pub mod Completing
pub mod Creating
pub mod Dispatching
pub mod Looping
pub mod Runs
pub mod Safety
pub mod Leasing
pub mod Once
pub mod Claiming
pub mod Cancelled
pub mod Pulling
pub mod Scanning
pub mod Ending
