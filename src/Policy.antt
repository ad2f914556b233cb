-- ===== src/Policy.antt =====
-- internal/policy: what a tool may reach.
pub mod Model
pub mod Mcp
pub mod Urls
pub mod Live
pub mod Known
