-- ===== src/Engine/Cerebro.antt =====
-- `Cerebro::run` of include/stratforge/engine/cerebro.hpp: the loop over the bars of the master feed,
-- in which the context feeds are delivered, the broker fills and the strategies are called.
-- The messages of exceptions are shortened. Analyzers and observers only read, and the candidate collector comes in as the broker's hook.
pub mod Script
pub mod Histories
pub mod Gated
pub mod Visible
use Prim.Native.String.{String}
use strat_forge.Common.{
  ℕ, zero, suc, ◌+◌, ◌-◌, Bool, true, false, ◌&&◌, not, Option, none, some, List, [], ◌∷◌, ◌++◌,
  map, if◌then◌else◌, ltb, leb, ◌==◌, length, get_elem?,
}
use strat_forge.Common.Int.{ℤ, pos, ◌+ℤ◌, ◌*ℤ◌, leb_ℤ, eqb_ℤ}
use strat_forge.Common.Throws.{Throws, returns, throws, ◌>>=◌}
use strat_forge.Double.{Double, nought}
use strat_forge.Broker.Currency.{DateTime}
use strat_forge.Broker.State.{Broker, Feed}
use strat_forge.Broker.Settings.{set_bar_index}
use strat_forge.Broker.Process.{process_orders}
use strat_forge.Broker.History.{Act, act}
use strat_forge.Data.Resampler.{TimeFrame, Bar}
use strat_forge.Data.Interval.{
  TimeFrameCompression, CivilCalendar, duration_of, period_end, finer_than, tf_number,
}
use strat_forge.Engine.Clock.{Clocked, advance_feed, advance_contexts, in_order}
use strat_forge.Engine.Strategies.{Callback, Strategies, Seat, call, call_all}

-- `data_feeds_`, from the master on.
pub record Cerebro (S W : Type 0) : Type 0 where
  pub master : Clocked W
  pub contexts : List (Clocked W)
  pub strategies : List (Seat S)
  pub broker : Broker W
  pub warmup_end_timestamp_ms : ℤ

module _ {W : Type 0} ⦃d : Double W⦄ where
  -- What the broker reads of a feed. An empty feed has no bar to read.
  unfoldable pub view : Clocked W → Feed W
  view f = elim (get_elem? f.rows f.index) [
    | none ↦ record {
      size = 0;
      buflen = 0;
      open_price = nought;
      high = nought;
      low = nought;
      close = nought;
      datetime = pos 0;
    }
    | some row ↦ record {
      size = length f.rows;
      buflen = length f.rows - f.index;
      open_price = row.open_price;
      high = row.high;
      low = row.low;
      close = row.close;
      datetime = row.datetime;
    }
  ]

module _ {S W : Type 0} ⦃d : Double W⦄ (c : CivilCalendar) (milliseconds : DateTime → ℤ)
    (user : Strategies S W) where
  abbrev pub feeds : Cerebro S W → List (Clocked W)
  feeds e = e.master ∷ e.contexts

  unfoldable pub call_in_turn : List Callback → List (Clocked W) → S → Broker W → S × Broker W
  unfolding call
  call_in_turn [] fs s b = (s, b)
  call_in_turn (cb ∷ cbs) fs s b = let (s', b') = call user cb fs s b in call_in_turn cbs fs s' b'

  -- `init` and `start` of every strategy, or its `stop`.
  unfoldable pub call_each :
      List Callback → List (Clocked W) → List (Seat S) → Broker W → List (Seat S) × Broker W
  unfolding call_in_turn
  call_each cbs fs [] b = ([], b)
  call_each cbs fs (seat ∷ seats) b =
      let (s, b') = call_in_turn cbs fs seat.strat b in
      let (seats', b'') = call_each cbs fs seats b' in (record seat { strat = s } ∷ seats', b'')

  -- `check_warmup_feasibility` for one strategy, from the k-th feed on.
  unfoldable pub feasible : S → ℕ → List (Clocked W) → Bool
  feasible s k [] = true
  feasible s k (f ∷ fs) =
      not (ltb (length f.rows) (user.minimum_period s k)) && feasible s (suc k) fs

  unfoldable pub all_feasible : List (Seat S) → List (Clocked W) → Bool
  unfolding feasible
  all_feasible [] fs = true
  all_feasible (seat ∷ seats) fs = feasible seat.strat 0 fs && all_feasible seats fs

  -- The first strategy that enters `next` sets the end of the warmup, if it is not set.
  unfoldable pub warmup_end : List (Seat S) → List (Seat S) → ℤ → ℤ → ℤ
  warmup_end (old ∷ olds) (new ∷ news) ms set =
      let set' =
        if not old.entered_next && new.entered_next && eqb_ℤ set (pos 0) then ms else set in
      warmup_end olds news ms set'
  warmup_end _ _ ms set = set

  abbrev pub flagged : ℕ → Clocked W → Clocked W
  flagged bar f = record f { feed_advanced = true; bars_delivered = suc bar }

  -- The round of a bar once the context feeds are delivered.
  unfoldable pub round : ℕ → Cerebro S W → List (Clocked W) → Cerebro S W
  unfolding advance_feed view call_all warmup_end set_bar_index
  round bar e contexts =
      let master = flagged bar e.master in
      let fs = master ∷ contexts in
      let filled = process_orders (map view fs) (set_bar_index bar e.broker) in
      let (seats, b) = call_all user fs e.strategies filled in
      let ms : ℤ = elim (get_elem? master.rows bar) [
        | none ↦ pos 0
        | some row ↦ milliseconds row.datetime
      ] in
      record {
        master = if ltb (suc bar) (length master.rows) then advance_feed master else master;
        contexts = contexts;
        strategies = seats;
        broker = b;
        warmup_end_timestamp_ms = warmup_end e.strategies seats ms e.warmup_end_timestamp_ms;
      }

  unfoldable pub bar_step : ℕ → Cerebro S W → Throws (Cerebro S W)
  unfolding advance_contexts round
  bar_step bar e = advance_contexts c (flagged bar e.master) e.contexts >>= λ contexts.
      returns (round bar e contexts)

  -- The main loop, by the number of bars left.
  unfoldable pub run_bars : ℕ → ℕ → Cerebro S W → Throws (Cerebro S W)
  unfolding bar_step
  run_bars zero bar e = returns e
  run_bars (suc left) bar e = bar_step bar e >>= run_bars left (suc bar)

  unfoldable pub prepare : Cerebro S W → Cerebro S W
  unfolding call_each
  prepare e =
      let (seats, b) =
        call_each (Callback.init ∷ Callback.start ∷ []) (feeds e) e.strategies e.broker in
      record e { strategies = seats; broker = b }

  unfoldable pub finish : Cerebro S W → Cerebro S W
  unfolding call_each
  finish e =
      let (seats, b) = call_each (Callback.stop ∷ []) (feeds e) e.strategies e.broker in
      record e { strategies = seats; broker = b }

  -- `run` from the strategies' preparation on.
  unfoldable pub run_plan : Cerebro S W → Throws (Cerebro S W)
  unfolding run_bars prepare finish all_feasible
  run_plan e =
      let ready = prepare e in
      if not (all_feasible ready.strategies (feeds ready))
      then throws "Cerebro: feed has fewer bars than its warmup requires"
      else run_bars (length e.master.rows) 0 ready >>= λ e'. returns (finish e')

  -- `run` with a master feed; without any feed it returns at once.
  unfoldable pub run : Bool → Cerebro S W → Throws (Cerebro S W)
  unfolding run_plan in_order
  run preload e =
      if not preload
      then throws "Cerebro currently requires preload=true; streaming execution is not implemented"
      else if length e.master.rows == 0
      then returns e
      else if not (in_order e.master.timeframe e.contexts)
      then throws "Cerebro: context feed is finer than feed 0 (execution)"
      else run_plan e
