-- ===== src/Data.antt =====
-- The data side: the lines of include/stratforge/core that hold a feed's columns.
pub mod Line
pub mod Resampler
pub mod Interval
