-- ===== src/Broker.antt =====
-- include/stratforge/broker: orders, positions, trades, costs and the broker that fills orders.
pub mod Currency
pub mod Order
pub mod Commission
pub mod Instrument
pub mod Position
pub mod Trade
pub mod State
pub mod Settings
pub mod TradeBook
pub mod Submit
pub mod Fill
pub mod Process
pub mod Value
pub mod Live
pub mod History
