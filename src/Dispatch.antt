-- ===== src/Dispatch.antt =====
-- Dispatching: planning the route of a task, creating its execution, calling the executor, and
-- the loops of the scheduler and of the compensators, one round at a time.
pub mod Routing
pub mod Creation
pub mod Dispatcher
pub mod Rounds
