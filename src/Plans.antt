-- ===== src/Plans.antt =====
-- The execution of plans: internal/coordinator/executor.go, and the tables that record it.
pub mod Records
pub mod Router
pub mod Waves
pub mod Execution
pub mod Results
pub mod Settled
pub mod Created
pub mod Covered
pub mod Pending
pub mod Ordered
pub mod Resumed
