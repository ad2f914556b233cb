-- ===== src/Engine.antt =====
-- internal/engine: the agent loop and the failover between model providers.
pub mod Failover
pub mod Breakers
pub mod Requests
pub mod Tripped
pub mod Loop
pub mod Budget
pub mod Checkpoints
pub mod Resumption
