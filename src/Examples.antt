-- ===== src/Examples.antt =====
-- The theorems at work on small concrete histories, with prices and sizes in whole lots.
mod Data
mod Histories
mod Engines
mod Batches
mod Optimizers
mod Lives
mod Fills
mod Submits
mod Passes
mod Shadows
mod Ledgers
mod Values
mod Lines
mod Bars
mod Drawdowns
mod Trades
mod Warmups
