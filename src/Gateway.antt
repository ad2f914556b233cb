-- ===== src/Gateway.antt =====
-- The access control of internal/gateway: API keys and rate limits.
pub mod Access
pub mod Limits
pub mod Guarded
pub mod Bounded
pub mod Keys
