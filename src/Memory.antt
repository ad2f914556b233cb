-- ===== src/Memory.antt =====
-- internal/memory: the window of recent messages given to a model.
pub mod Window
pub mod Fits
