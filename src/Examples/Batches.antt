-- ===== src/Examples/Batches.antt =====
-- A batcher with batches of two bars that sees two bars, one after the other.
use strat_forge.Common.{suc, false, List, [], ◌∷◌, ◌++◌, ◌≡◌, refl, arith, map}
use strat_forge.Common.Int.{ℤ, pos}
use strat_forge.Double.Lots.{lots}
use strat_forge.Broker.State.{init}
use strat_forge.Engine.Clock.{Clocked}
use strat_forge.Observers.Increment.{IncrementSnapshot}
use strat_forge.Observers.Batcher.{
  BatcherConfig, IncrementBatcher, Signal, signals, stop, new_batcher,
}
use strat_forge.Observers.Batcher.Streams.{joined}
use strat_forge.Observers.Batcher.Once.{all_bars, all_trades, all_worths, worths, signals-Once}
use strat_forge.Observers.Batcher.Final.{IsRunning, IsEnd, signals-Final}
use strat_forge.Examples.Data.{new_broker}
use strat_forge.Examples.Engines.{idle_feed, row_at}

abbrev pairs : BatcherConfig
pairs = record {
  max_bars_per_batch = 2;
  max_interval = pos 100;
  emit_first_bar_immediately = false;
}

abbrev feed : Clocked ℤ
feed = idle_feed 1 (row_at 0 10 ∷ row_at 60 11 ∷ [])

abbrev two_bars : List (Signal ℤ)
two_bars =
    Signal.starts (pos 0)
    ∷ Signal.nexts new_broker (feed ∷ []) (pos 5)
    ∷ Signal.nexts new_broker (record feed { index = 1 } ∷ []) (pos 9)
    ∷ []

abbrev after : IncrementBatcher ℤ
after = signals two_bars (new_batcher pairs)

batch_full : map (λ x. x.seq) after.flushed ≡ 1 ∷ []
unfolding signals init new_batcher
batch_full = refl

signals-Once_example :
    (joined (λ x. x.new_bars) after.flushed ++ after.pending_bars ≡ all_bars two_bars)
    × (joined (λ x. x.new_trades) after.flushed ++ after.pending_trades ≡ all_trades two_bars)
    × (joined (λ x. worths x.new_equity_points) after.flushed ++ worths after.pending_equity
        ≡ all_worths two_bars)
signals-Once_example = signals-Once pairs two_bars

signals-Final_example :
    IsRunning 2 after
    × ((snap : IncrementSnapshot ℤ) × ((stop after).flushed ≡ after.flushed ++ (snap ∷ []))
        × IsEnd (suc after.seq) (stop after) snap)
signals-Final_example = signals-Final pairs two_bars (omega arith) (tt, (tt, (tt, tt)))
