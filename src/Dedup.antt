-- ===== src/Dedup.antt =====
-- The table tool_call_dedup of internal/persistence/tasks.go: a tool's side effect at most once per key.
pub mod Model
pub mod Once
