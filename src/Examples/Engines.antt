-- ===== src/Examples/Engines.antt =====
-- A master feed of one-minute bars with a context feed of two-minute bars, and a strategy that buys
-- once. The calendar of the examples has months of thirty days.
use strat_forge.Common.{ℕ, zero, suc, ◌+◌, true, false, List, [], ◌∷◌, ◌≡◌, refl, arith, map}
use strat_forge.Common.Int.{ℤ, pos, ◌+ℤ◌, ◌*ℤ◌}
use strat_forge.Common.Throws.{throws, value_or}
use Prim.Native.String.{String}
use strat_forge.Double.Lots.{lots}
use strat_forge.Broker.Currency.{iso_number}
use strat_forge.Broker.Order.{OrderSide, execute}
use strat_forge.Broker.State.{init}
use strat_forge.Broker.Process.{
  handle, process_orders, close_groups, walk, step_at, book, tend_children,
}
use strat_forge.Broker.History.{act}
use strat_forge.Broker.Submit.{submit_order_ext}
use strat_forge.Broker.TradeBook.{update_trades}
use strat_forge.Data.Resampler.{TimeFrame, Bar, floor_div}
use strat_forge.Data.Interval.{
  CivilCalendar, parse_interval, to_string, period_start, advance_periods,
}
use strat_forge.Data.Interval.Vocabulary.{to_string-parse}
use strat_forge.Data.Interval.Grid.{IsGrid, floor-IsGrid}
use strat_forge.Data.Interval.Refused.{of, advance_refused}
use strat_forge.Data.Interval.Periods.{Periods, period-Grid}
use strat_forge.Engine.Clock.{Clocked, close_of}
use strat_forge.Engine.Strategies.{Strategies, Plan, BrokerCall, Callback}
use strat_forge.Engine.Cerebro.{Cerebro, run}
use strat_forge.Engine.Cerebro.Gated.{close_time, Rises}
use strat_forge.Engine.Cerebro.Visible.{RunsTo, run_bars-Visible}
use strat_forge.Examples.Data.{new_broker, at_market}

abbrev pub thirty_days : CivilCalendar
thirty_days = record {
  per_second = 1;
  month_of = λ day. floor_div day 30;
  first_of = λ month. month *ℤ pos 30;
}

thirty_days-IsGrid : IsGrid (λ day. floor_div day 30) (λ month. month *ℤ pos 30)
thirty_days-IsGrid = floor-IsGrid 30 (omega arith)

to_string-parse_example : to_string (of TimeFrame.minutes (pos 240)) ≡ "4h"
unfolding parse_interval
to_string-parse_example = to_string-parse "4h" (of TimeFrame.minutes (pos 240)) refl

period-Grid_example : Periods thirty_days (of TimeFrame.weeks (pos 1))
period-Grid_example =
    period-Grid thirty_days (omega arith) thirty_days-IsGrid (of TimeFrame.weeks (pos 1)) refl

advance_refused_example :
    (message : String) × (period_start thirty_days (pos 7) (of TimeFrame.years (pos 1))
      ≡ throws message)
    × (advance_periods thirty_days (pos 7) (of TimeFrame.years (pos 1)) (pos 2) ≡ throws message)
advance_refused_example =
    advance_refused thirty_days (pos 7) (of TimeFrame.years (pos 1)) (pos 2) refl

abbrev pub row_at : ℕ → ℕ → Bar ℤ
row_at time price = record {
  datetime = pos time;
  open_price = pos price;
  high = pos (price + 2);
  low = pos price;
  close = pos (price + 1);
  volume = pos 5;
  openinterest = pos 0;
}

abbrev pub idle_feed : ℕ → List (Bar ℤ) → Clocked ℤ
idle_feed minutes rows = record {
  timeframe = of TimeFrame.minutes (pos minutes);
  rows = rows;
  index = 0;
  context_cursor = 0;
  bars_delivered = 0;
  feed_advanced = false;
}

-- It buys when it is first called with all its feeds ready.
abbrev buy_once : Strategies ℕ ℤ
buy_once = record {
  minimum_period = λ s k. 1;
  callback = λ cb fs b s. elim cb [
    | Callback.nextstart ↦
        Plan.calls (BrokerCall.submits OrderSide.buy (pos 3) at_market)
          (λ b'. Plan.done b'.next_order_id)
    | _ ↦ Plan.done s
  ];
}

abbrev engine : Cerebro ℕ ℤ
engine = record {
  master = idle_feed 1 (row_at 0 10 ∷ row_at 60 11 ∷ row_at 120 12 ∷ row_at 180 13 ∷ []);
  contexts = idle_feed 2 (row_at 0 10 ∷ row_at 120 12 ∷ []) ∷ [];
  strategies = record { strat = 0; entered_next = false } ∷ [];
  broker = new_broker;
  warmup_end_timestamp_ms = pos 0;
}

engine-Rises : Rises thirty_days (λ t. t) buy_once engine.master
unfolding close_time close_of ◌+ℤ◌ ◌*ℤ◌
engine-Rises zero row next h k = ground arith
engine-Rises (suc zero) row next h k = ground arith
engine-Rises (suc (suc zero)) row next h k = ground arith
engine-Rises (suc (suc (suc i))) row next h k = absurd (cc k)

run_bars-Visible_example : RunsTo thirty_days (λ t. t) buy_once 2 0 engine
run_bars-Visible_example =
    run_bars-Visible thirty_days (λ t. t) buy_once (omega arith) thirty_days-IsGrid engine 2 refl
      (refl, tt) engine-Rises refl
      (record { at_start = refl; no_cursor = refl; no_bars = refl }, tt) (omega arith)

abbrev engine_end : Cerebro ℕ ℤ
engine_end = value_or (run thirty_days (λ t. t) buy_once true engine) engine

-- The strategy starts at the second bar, where the first context bar is closed, and its order is
-- filled at the third.
engine_buys :
    (map (λ o. o.executed_price) engine_end.broker.all_orders ≡ pos 12 ∷ [])
    × (map (λ f. f.bars_delivered) engine_end.contexts ≡ 2 ∷ [])
unfolding run floor_div ◌+ℤ◌ ◌*ℤ◌ init execute handle iso_number process_orders close_groups walk
    act submit_order_ext step_at book tend_children update_trades
engine_buys = (refl, refl)
