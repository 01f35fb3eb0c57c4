-- ===== src/Lib.antt =====
-- StratForge is a header-only C++ library for backtesting trading strategies. This library models
-- its broker, include/stratforge/broker, the engines that drive it, in backtests and live, and what
-- observes them, and shows what keeps the broker's books and the engines' promises.
--
-- How the parts interact: the engine gives every bar to `BackBroker` (`set_bar_index`,
-- `process_orders`); the strategy submits, brackets and cancels orders and closes positions. A pass
-- walks the pending orders, tries to fill each against its feed's bar (`try_fill_order`), and a fill
-- charges commission, moves cash, updates the position and books trades.
--
-- Double: a C++ double, as an interface with the operations and comparisons the code uses. Laws are
-- hypotheses of the theorems that need them: `IsOrdered` (comparison without NaN), `IsExact`
-- (arithmetic without rounding) and `IsGranular` (no size other than 0 is below 1e-10).
-- Double/Lots is a type that meets them all; the examples run on it. Theorems without such a
-- hypothesis hold for floating-point arithmetic as it is.
-- Broker/Currency, Order, Commission, Instrument, Position, Trade: the files of
-- include/stratforge/broker of those names; venue.hpp is in Broker/Instrument.
-- Broker/State, TradeBook, Submit, Fill, Process: class `BackBroker` of broker.hpp. State has its
-- members and look-ups, TradeBook `update_trades`, Submit the calls that submit and cancel, Fill
-- `try_fill_order` and `apply_slippage`, Process `process_orders`. Callbacks that only report are
-- a list of events in the state; the pre-order hook, the rates and the fees are functions that
-- the caller gives.
-- Broker/Value: `portfolio_value` and `cash_in_base`. Broker/Live: live mode, with the connector's calls
-- as a list of requests and its reports as arguments.
-- Corrective/Sizing: include/stratforge/corrective/pop_sizing_policy.hpp, with `std::pow` as a
-- parameter.
-- Corrective/Shadow: include/stratforge/corrective/shadow_ledger.hpp, with the length of a clock
-- tick as a parameter.
-- Data/Line: include/stratforge/core/line.hpp, the column of values behind a feed.
-- Data/Resampler: include/stratforge/data/resampler.hpp, with the calendar as a parameter.
-- Data/Interval: include/stratforge/data/interval.hpp, with the civil months as a parameter.
-- Engine: `Cerebro::run` of include/stratforge/engine/cerebro.hpp. Clock delivers the feeds' bars,
-- Strategies calls the strategies, which are functions that the caller gives, and Cerebro is the loop.
-- Engine/Warmup: the minimum periods of include/stratforge/strategy/strategy.hpp.
-- Engine/Optimizer: include/stratforge/engine/optimizer.hpp. The threads are a list of workers, and what
-- they do is a schedule of their moves; the fuel of its proofs is the number of moves left.
-- Live: include/stratforge/live. Risk has the engine's state and its limits, Engine its events. The clock
-- stands still while an event is handled, and the connector does not call back. A position on a feed
-- that has no price makes the `noexcept` value of the portfolio end the program.
-- Params: include/stratforge/core/params.hpp.
-- Observers: the batcher of include/stratforge/observers/increment_batcher.hpp and the records of
-- increment_types.hpp. The list of flushed snapshots stands for the calls of its callback.
-- Analyzers/Drawdown, Trades: drawdown.hpp and trade_analyzer.hpp of include/stratforge/analyzers.
-- Broker/History: sequences of the broker's calls outside live mode, its settings included. Live mode's
-- calls are events of Live/Engine and steps of Broker/Live, since a live report may revive an order.
--
-- Conventions: a `size_t` counter is a natural number and does not wrap around, since it counts orders,
-- trades and bars held in memory. A vector that is walked by reference and a copy that outlives the
-- loop are two lists, as in the code. `cash_` and `instrument_map_` are association lists, with what
-- the code does on a missing key, and are summed in the list's order. The walk of a pass is recursion
-- on the number of pending orders, which the pass does not change; it is no bound on the code.
-- The pre-order hook may be another function before each call of the broker, as a hook that keeps
-- state is, but answers as one function within a call, that of a bracket included.
-- Preconditions of the standard library (`std::clamp` with low above high) are not checked.
--
-- Not modelled: the feeds' readers, indicators, statistics, the other analyzers and
-- observers, the JSON text of snapshots, sizers, ready-made strategies, the runner, and the corrective
-- layer but for its sizing policy and shadow ledger.
pub mod Common
pub mod Double
pub mod Broker
pub mod Corrective
pub mod Data
pub mod Analyzers
pub mod Engine
pub mod Observers
pub mod Params
pub mod Live
mod Examples
