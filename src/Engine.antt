-- ===== src/Engine.antt =====
-- The engine of include/stratforge/engine.
pub mod Clock
pub mod Strategies
pub mod Cerebro
pub mod Optimizer
pub mod Warmup
