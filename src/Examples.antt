-- ===== src/Examples.antt =====
-- The theorems at concrete inputs: a task of tenant 1 that waits at version 3, an execution that
-- runs, one that has ended and one that waits for its retry.
mod Sample
mod Runs
mod Writes
mod Values
mod Pulls
mod Code
mod Pools
mod Starts
