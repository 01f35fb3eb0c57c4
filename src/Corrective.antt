-- ===== src/Corrective.antt =====
-- The corrective layer of include/stratforge/corrective, which a pre-order hook puts between a
-- strategy and the broker.
pub mod Sizing
pub mod Shadow
