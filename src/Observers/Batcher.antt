-- ===== src/Observers/Batcher.antt =====
-- include/stratforge/observers/increment_batcher.hpp: the state of every bar, batched into snapshots.
-- The calls of the flush callback are a list in the state. The steady clock is an argument, and what
-- the candidate collector has pending a member. The counters do not wrap around.
pub mod Streams
pub mod Once
pub mod Final
use strat_forge.Common.{
  ℕ, zero, suc, ◌+◌, Bool, true, false, ◌&&◌, ◌||◌, not, Option, none, some, List, [], ◌∷◌, ◌++◌,
  map, if◌then◌else◌, leb, ◌==◌, length, get_elem?,
}
use strat_forge.Common.Int.{ℤ, pos, ◌-ℤ◌, leb_ℤ}
use strat_forge.Double.{Double, ◌⊕◌, ◌⊖◌, ◌⊗◌, ◌⊘◌, nought}
use strat_forge.Broker.Currency.{DateTime}
use strat_forge.Broker.Trade.{Trade, TradeStatus, is_closed}
use strat_forge.Broker.State.{Broker, Feed, cash_in}
use strat_forge.Broker.Value.{portfolio_value}
use strat_forge.Corrective.Shadow.{OutcomeRecord}
use strat_forge.Data.Resampler.{Bar}
use strat_forge.Engine.Clock.{Clocked}
use strat_forge.Engine.Cerebro.{view}
use strat_forge.Observers.Increment.{
  BarSnapshot, TradeRecord, EquityPoint, MetricsSnapshot, CandidateSnapshot, IncrementSnapshot,
  TerminationReason, project_trade,
}

-- `max_interval` in the ticks of the steady clock.
pub record BatcherConfig : Type 0 where
  pub max_bars_per_batch : ℕ
  pub max_interval : ℤ
  pub emit_first_bar_immediately : Bool

-- What a candidate collector has for the next flush.
pub record Collected (W : Type 0) : Type 0 where
  pub pending_candidates : List (CandidateSnapshot W)
  pub pending_outcomes : List (OutcomeRecord W)

pub record IncrementBatcher (W : Type 0) : Type 0 where
  pub config : BatcherConfig
  pub seq : ℕ
  pub processed_bars : ℕ
  pub total_bars : Option ℕ
  pub pending_bars : List (BarSnapshot W)
  pub pending_trades : List (TradeRecord W)
  pub pending_equity : List (EquityPoint W)
  pub last_flush_at : ℤ
  pub first_bar_seen : Bool
  pub initial_cash : W
  pub last_portfolio_value : W
  pub last_cash : W
  pub peak : W
  pub current_dd : W
  pub max_dd : W
  pub closed_realized_pnl : W
  pub closed_trade_count : ℕ
  pub winning_count : ℕ
  pub losing_count : ℕ
  pub collector : Option (Collected W)
  pub flushed : List (IncrementSnapshot W)

module _ {W : Type 0} ⦃d : Double W⦄ where
  unfoldable pub new_batcher : BatcherConfig → IncrementBatcher W
  new_batcher config = record {
    config = config;
    seq = 0;
    processed_bars = 0;
    total_bars = none;
    pending_bars = [];
    pending_trades = [];
    pending_equity = [];
    last_flush_at = pos 0;
    first_bar_seen = false;
    initial_cash = nought;
    last_portfolio_value = nought;
    last_cash = nought;
    peak = nought;
    current_dd = nought;
    max_dd = nought;
    closed_realized_pnl = nought;
    closed_trade_count = 0;
    winning_count = 0;
    losing_count = 0;
    collector = none;
    flushed = [];
  }

  unfoldable pub current_metrics : IncrementBatcher W → MetricsSnapshot W
  current_metrics s =
      let decided = s.winning_count + s.losing_count in
      record {
        realized_pnl = s.closed_realized_pnl;
        unrealized_pnl = s.last_portfolio_value ⊖ s.last_cash;
        total_return_pct =
            if d.lt nought s.initial_cash
            then ((s.last_portfolio_value ⊘ s.initial_cash) ⊖ d.lit 1) ⊗ d.lit 100
            else nought;
        current_dd_pct = s.current_dd;
        max_dd_pct = s.max_dd;
        trade_count = s.closed_trade_count;
        winning_count = s.winning_count;
        losing_count = s.losing_count;
        win_rate_pct =
            if decided == 0 then nought else (d.lit s.winning_count ⊘ d.lit decided) ⊗ d.lit 100;
      }

  abbrev pub drained : Option (Collected W) → Option (Collected W)
  drained none = none
  drained (some c) = some (record { pending_candidates = []; pending_outcomes = [] })

  abbrev pub candidates : Option (Collected W) → List (CandidateSnapshot W)
  candidates none = []
  candidates (some c) = c.pending_candidates

  abbrev pub outcomes : Option (Collected W) → List (OutcomeRecord W)
  outcomes none = []
  outcomes (some c) = c.pending_outcomes

  unfoldable pub snapshot_of : Bool → IncrementBatcher W → IncrementSnapshot W
  unfolding current_metrics
  snapshot_of is_final s = record {
    seq = suc s.seq;
    new_bars = s.pending_bars;
    new_trades = s.pending_trades;
    new_equity_points = s.pending_equity;
    current_metrics = current_metrics s;
    processed_bars = s.processed_bars;
    total_bars = s.total_bars;
    is_final = is_final;
    termination = if is_final then some TerminationReason.normal else none;
    dropped_since_last_flush = 0;
    new_candidates = candidates s.collector;
    new_outcomes = outcomes s.collector;
  }

  -- `emit_`, where the callback returns.
  unfoldable pub emit : Bool → IncrementBatcher W → IncrementBatcher W
  unfolding snapshot_of
  emit is_final s = record s {
    seq = suc s.seq;
    pending_bars = [];
    pending_trades = [];
    pending_equity = [];
    collector = drained s.collector;
    flushed = s.flushed ++ (snapshot_of is_final s ∷ []);
  }

  -- The thresholds of `maybe_flush_`.
  unfoldable pub flushes : Bool → ℤ → IncrementBatcher W → Bool
  unfolding ◌-ℤ◌
  flushes force now s =
      let some_bars = not (length s.pending_bars == 0) in
      let first_force = s.config.emit_first_bar_immediately && (s.seq == 0) && some_bars in
      let by_count = leb s.config.max_bars_per_batch (length s.pending_bars) in
      let by_time = leb_ℤ s.config.max_interval (now -ℤ s.last_flush_at) in
      force || first_force || by_count || by_time

  unfoldable pub maybe_flush : Bool → ℤ → IncrementBatcher W → IncrementBatcher W
  unfolding emit flushes
  maybe_flush force now s =
      let s' = emit false s in if flushes force now s then record s' { last_flush_at = now } else s

  abbrev pub start : ℤ → IncrementBatcher W → IncrementBatcher W
  start now s = record s { last_flush_at = now }

  -- The current bar of the first feed, which is not empty where there is one.
  abbrev pub first_bar : List (Clocked W) → Option (Bar W)
  first_bar [] = none
  first_bar (f ∷ fs) = get_elem? f.rows f.index

  abbrev pub first_size : List (Clocked W) → Option ℕ
  first_size [] = none
  first_size (f ∷ fs) = some (length f.rows)

  abbrev pub snapshot_current_bar : Bar W → BarSnapshot W
  snapshot_current_bar bar = record {
    timestamp = bar.datetime;
    open_price = bar.open_price;
    high = bar.high;
    low = bar.low;
    close = bar.close;
    volume = bar.volume;
  }

  abbrev pub bars_seen : List (Clocked W) → List (BarSnapshot W)
  bars_seen fs = elim (first_bar fs) [ none ↦ [] | some bar ↦ snapshot_current_bar bar ∷ [] ]

  abbrev pub first_time : List (Clocked W) → DateTime
  first_time fs = elim (first_bar fs) [ none ↦ pos 0 | some bar ↦ bar.datetime ]

  -- What the first call of `next` takes down.
  abbrev pub see_first : Broker W → List (Clocked W) → IncrementBatcher W → IncrementBatcher W
  see_first b fs s = record s {
    first_bar_seen = true;
    total_bars = if s.first_bar_seen then s.total_bars else first_size fs;
    initial_cash = if s.first_bar_seen then s.initial_cash else b.initial_cash;
  }

  -- `next` up to the flush.
  unfoldable pub record_bar : Broker W → List (Clocked W) → IncrementBatcher W → IncrementBatcher W
  unfolding portfolio_value view cash_in
  record_bar b fs s0 =
      let s = see_first b fs s0 in
      let pv = portfolio_value b (map view fs) in
      let cash = cash_in b.config.base_ccy b.cash in
      let peak = if d.lt s.peak pv then pv else s.peak in
      let dd = if d.lt nought peak then (peak ⊖ pv) ⊘ peak ⊗ d.lit 100 else nought in
      let point : EquityPoint W = record {
        timestamp = first_time fs;
        portfolio_value = pv;
        cash = cash;
        drawdown_pct = dd;
      } in
      record s {
        pending_bars = s.pending_bars ++ bars_seen fs;
        peak = peak;
        max_dd = if d.lt s.max_dd dd then dd else s.max_dd;
        current_dd = dd;
        last_portfolio_value = pv;
        last_cash = cash;
        pending_equity = s.pending_equity ++ (point ∷ []);
        processed_bars = suc s.processed_bars;
      }

  unfoldable pub next : Broker W → List (Clocked W) → ℤ → IncrementBatcher W → IncrementBatcher W
  unfolding record_bar maybe_flush
  next b fs now s = maybe_flush false now (record_bar b fs s)

  unfoldable pub notify_trade : Trade W → IncrementBatcher W → IncrementBatcher W
  notify_trade t s =
      let closed = is_closed t in
      let won = closed && d.lt nought t.pnlcomm in
      let lost = closed && not (d.lt nought t.pnlcomm) && d.lt t.pnlcomm nought in
      record s {
        pending_trades = s.pending_trades ++ (project_trade t ∷ []);
        closed_realized_pnl =
            if closed then s.closed_realized_pnl ⊕ t.pnlcomm else s.closed_realized_pnl;
        closed_trade_count = if closed then suc s.closed_trade_count else s.closed_trade_count;
        winning_count = if won then suc s.winning_count else s.winning_count;
        losing_count = if lost then suc s.losing_count else s.losing_count;
      }

  unfoldable pub stop : IncrementBatcher W → IncrementBatcher W
  unfolding emit
  stop = emit true

-- The members that the engine calls, with the time that the steady clock shows.
pub data Signal (W : Type 0) : Type 0 where
  starts : ℤ → Signal W
  nexts : Broker W → List (Clocked W) → ℤ → Signal W
  trades : Trade W → Signal W
  stops : Signal W

module _ {W : Type 0} ⦃d : Double W⦄ where
  unfoldable pub signal : Signal W → IncrementBatcher W → IncrementBatcher W
  unfolding next notify_trade stop
  signal (Signal.starts now) s = start now s
  signal (Signal.nexts b fs now) s = next b fs now s
  signal (Signal.trades t) s = notify_trade t s
  signal Signal.stops s = stop s

  unfoldable pub signals : List (Signal W) → IncrementBatcher W → IncrementBatcher W
  unfolding signal
  signals [] s = s
  signals (x ∷ xs) s = signals xs (signal x s)
