-- ===== src/Observers/Batcher/Once.antt =====
-- The batcher passes every bar, every trade and every equity point on, once and in order.
use strat_forge.Common.{List, [], ◌∷◌, ◌++◌, map, ◌≡◌, refl, sym}
use mathlib.Core.List.{append-nil, map-append}
use strat_forge.Double.{Double}
use strat_forge.Broker.Value.{portfolio_value}
use strat_forge.Engine.Cerebro.{view}
use strat_forge.Observers.Increment.{BarSnapshot, TradeRecord, EquityPoint, project_trade}
use strat_forge.Observers.Batcher.{
  BatcherConfig, Signal, signals, emit, snapshot_of, record_bar, notify_trade, bars_seen,
  new_batcher,
}
use strat_forge.Observers.Batcher.Streams.{joined, IsStream, signals-passed, all_seen}

module _ {W : Type 0} ⦃d : Double W⦄ where
  abbrev pub bars_of : Signal W → List (BarSnapshot W)
  bars_of (Signal.nexts b fs now) = bars_seen fs
  bars_of _ = []

  abbrev pub trades_of : Signal W → List (TradeRecord W)
  trades_of (Signal.trades t) = project_trade t ∷ []
  trades_of _ = []

  -- The worth of the portfolio at every bar.
  abbrev pub worths_of : Signal W → List W
  worths_of (Signal.nexts b fs now) = portfolio_value b (map view fs) ∷ []
  worths_of _ = []

  abbrev pub worths : List (EquityPoint W) → List W
  worths = map λ p. p.portfolio_value

  bars-IsStream : IsStream (λ x. x.new_bars) (λ s. s.pending_bars) bars_of
  unfolding snapshot_of emit record_bar notify_trade
  bars-IsStream = record {
    moves = λ final s. refl;
    empties = λ final s. refl;
    keeps = λ now s. refl;
    starts = λ now. refl;
    stops = refl;
    records = λ b fs now s. refl;
    trades = λ t s. sym (append-nil s.pending_bars);
  }

  trades-IsStream : IsStream (λ x. x.new_trades) (λ s. s.pending_trades) trades_of
  unfolding snapshot_of emit record_bar notify_trade
  trades-IsStream = record {
    moves = λ final s. refl;
    empties = λ final s. refl;
    keeps = λ now s. refl;
    starts = λ now. refl;
    stops = refl;
    records = λ b fs now s. sym (append-nil s.pending_trades);
    trades = λ t s. refl;
  }

  worths-IsStream :
      IsStream (λ x. worths x.new_equity_points) (λ s. worths s.pending_equity) worths_of
  unfolding snapshot_of emit record_bar notify_trade
  worths-IsStream = record {
    moves = λ final s. refl;
    empties = λ final s. refl;
    keeps = λ now s. refl;
    starts = λ now. refl;
    stops = refl;
    records = λ b fs now s. map-append (λ p. p.portfolio_value) s.pending_equity _;
    trades = λ t s. sym (append-nil (worths s.pending_equity));
  }

  abbrev pub all_bars : List (Signal W) → List (BarSnapshot W)
  all_bars = all_seen bars_of

  abbrev pub all_trades : List (Signal W) → List (TradeRecord W)
  all_trades = all_seen trades_of

  abbrev pub all_worths : List (Signal W) → List W
  all_worths = all_seen worths_of

  -- After any calls of a new batcher, in any order and at any times: the flushed bars, one snapshot
  -- after another, and those that wait are the bars that the calls showed, once each and in order.
  -- So are the trades, and the worths of the portfolio in the equity points.
  pub signals-Once :
      (config : BatcherConfig) (xs : List (Signal W))
      → let s = signals xs (new_batcher config) in
        (joined (λ x. x.new_bars) s.flushed ++ s.pending_bars ≡ all_bars xs)
        × (joined (λ x. x.new_trades) s.flushed ++ s.pending_trades ≡ all_trades xs)
        × (joined (λ x. worths x.new_equity_points) s.flushed ++ worths s.pending_equity
            ≡ all_worths xs)
  unfolding new_batcher
  signals-Once config xs =
      let s = new_batcher {W = W} config in
      (
        signals-passed (λ x. x.new_bars) (λ s. s.pending_bars) bars_of bars-IsStream xs s,
        signals-passed (λ x. x.new_trades) (λ s. s.pending_trades) trades_of trades-IsStream xs s,
        signals-passed (λ x. worths x.new_equity_points) (λ s. worths s.pending_equity) worths_of
            worths-IsStream xs s,
      )
