-- ===== src/Coordinator.antt =====
-- internal/coordinator: plans and the order their steps run in.
pub mod Plan
pub mod Keys
pub mod Layers
pub mod Cycles
pub mod Complete
pub mod Validated
pub mod TopoSort
