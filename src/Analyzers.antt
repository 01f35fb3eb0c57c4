-- ===== src/Analyzers.antt =====
-- The statistics that include/stratforge/analyzers collects during a run.
pub mod Drawdown
pub mod Trades
