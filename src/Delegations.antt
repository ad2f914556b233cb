-- ===== src/Delegations.antt =====
-- internal/persistence/delegations.go: tasks that one agent gives to another and does not wait for.
pub mod Model
pub mod Injection
pub mod Requests
pub mod Delivered
