-- ===== src/Examples.antt =====
-- The theorems at concrete inputs.
mod Tasks
mod Coordinator
mod Engine
mod Policy
mod Others
mod Bus
mod Cron
mod Workers
mod Plans
mod Gateway
mod Setup
mod Delegations
