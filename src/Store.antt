-- ===== src/Store.antt =====
-- The database and the other things outside the process that the services change, and the actions
-- on them. An action runs at one instant `now`. Each statement, and each message sent, may fail: the outcomes of
-- the coming ones are `faults`, and an empty list is a world in which nothing fails any more.
pub mod Library
pub mod Pools
mod Rows
pub mod Action
pub mod Obeys
pub use Rows.*
pub mod Inversion
pub mod Quiet
pub mod Reading
