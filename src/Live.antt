-- ===== src/Live.antt =====
-- include/stratforge/live: a strategy that runs on streamed prices, with a connector that takes its
-- orders and limits on its risk.
pub mod Risk
pub mod Engine
