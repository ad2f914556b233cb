-- ===== src/Workers.antt =====
-- internal/engine/engine.go: what creates tasks, and the workers that take and handle them.
pub mod Model
pub mod Handling
pub mod Passes
pub mod Valid
pub mod Served
pub mod Handled
pub mod Delegated
pub mod Intake
pub mod Streams
