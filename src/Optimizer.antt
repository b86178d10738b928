-- ===== src/Optimizer.antt =====
-- The package uppaal/optimizer.
pub mod Transitions
pub mod States
