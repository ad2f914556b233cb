-- ===== src/Bus.antt =====
-- internal/bus: the publish/subscribe bus inside the process.
pub mod Model
pub mod Delivery
pub mod Runs
pub mod Fifo
pub mod Threshold
