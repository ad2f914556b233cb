-- ===== src/Cron.antt =====
-- Schedules: internal/cron/scheduler.go, their table, and the cron methods of internal/gateway/gateway.go.
pub mod Model
pub mod Requests
pub mod Ticks
pub mod Silent
