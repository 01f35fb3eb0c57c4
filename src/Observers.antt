-- ===== src/Observers.antt =====
-- The observers of include/stratforge/observers, which pass a run's state on while it goes on.
pub mod Increment
pub mod Batcher
