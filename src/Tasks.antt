-- ===== src/Tasks.antt =====
-- The task queue of internal/persistence: its tables, the state machine of a task, and the
-- operations of tasks.go on them.
pub mod Model
pub mod Transition
pub mod Lifecycle
pub mod Finish
pub mod Failure
pub mod Recovery
pub mod Sessions
pub mod Steps
pub mod Moves
pub mod Refinement
pub mod Inserts
pub mod Runs
pub mod Unique
pub mod Outcomes
pub mod Backoff
pub mod Queue
pub mod Failed
pub mod Claimed
pub mod Aborted
pub mod Started
