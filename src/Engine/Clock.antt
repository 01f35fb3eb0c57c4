-- ===== src/Engine/Clock.antt =====
-- The clocks of the feeds in `Cerebro::run` of include/stratforge/engine/cerebro.hpp: the master feed
-- gives a bar each round, and the bars of the context feeds are delivered when they are closed.
pub mod Visible
use Prim.Native.String.{String}
use strat_forge.Common.{
  ℕ, zero, suc, ◌+◌, ◌-◌, Bool, true, false, ◌&&◌, not, Option, none, some, List, [], ◌∷◌, ◌++◌,
  map, if◌then◌else◌, ltb, leb, ◌==◌, length, get_elem?,
}
use strat_forge.Common.Int.{ℤ, pos, ◌+ℤ◌, ◌*ℤ◌, leb_ℤ, eqb_ℤ}
use strat_forge.Common.Throws.{Throws, returns, throws, ◌>>=◌}
use strat_forge.Double.{Double, nought}
use strat_forge.Broker.Currency.{DateTime}
use strat_forge.Broker.State.{Broker, Feed}
use strat_forge.Broker.Settings.{set_bar_index}
use strat_forge.Broker.Process.{process_orders}
use strat_forge.Broker.History.{Act, act}
use strat_forge.Data.Resampler.{TimeFrame, Bar}
use strat_forge.Data.Interval.{
  TimeFrameCompression, CivilCalendar, duration_of, period_end, finer_than, tf_number,
}

-- A feed after `preload`, with the index of its lines' cursor, and the entries of
-- `context_cursor`, `bars_delivered` and `feed_advanced_flags` that belong to it.
pub record Clocked (W : Type 0) : Type 0 where
  pub timeframe : TimeFrameCompression
  pub rows : List (Bar W)
  pub index : ℕ
  pub context_cursor : ℕ
  pub bars_delivered : ℕ
  pub feed_advanced : Bool

abbrev pub is_calendar : TimeFrame → Bool
is_calendar TimeFrame.weeks = true
is_calendar TimeFrame.months = true
is_calendar _ = false

-- When the bar that opens at a time is closed.
unfoldable pub close_of : CivilCalendar → TimeFrameCompression → DateTime → Throws DateTime
unfolding period_end duration_of ◌+ℤ◌ ◌*ℤ◌
close_of c tfc bar_open =
    if is_calendar tfc.timeframe
    then period_end c bar_open tfc
    else duration_of tfc >>= λ span. returns (bar_open +ℤ span *ℤ pos c.per_second)

abbrev pub index_error : String
index_error = "Line index out of range"

module _ {W : Type 0} where
  -- `DataFeed::advance`: the cursor of every line moves on if there is a bar there.
  unfoldable pub advance_feed : Clocked W → Clocked W
  advance_feed f = if ltb (f.index + 1) (length f.rows) then record f { index = suc f.index } else f

  unfoldable pub take_bar : Clocked W → Clocked W
  unfolding advance_feed
  take_bar f =
      let f' = if ltb 0 f.bars_delivered then advance_feed f else f in
      record f' {
        bars_delivered = suc f.bars_delivered;
        feed_advanced = true;
        context_cursor = suc f.context_cursor;
      }

  -- One round of the loop over a context feed: `later` is the loop after the bar is taken.
  abbrev pub gate :
      CivilCalendar
      → DateTime
      → Clocked W
      → Throws (Clocked W)
      → Option (Bar W)
      → Throws (Clocked W)
  gate c exec_close f later none = returns f
  gate c exec_close f later (some row) = period_end c row.datetime f.timeframe >>= λ bar_period_end.
      if leb_ℤ bar_period_end exec_close then later else returns f

  -- The `while` loop over a context feed, by the number of bars that it has left.
  unfoldable pub deliver : CivilCalendar → DateTime → ℕ → Clocked W → Throws (Clocked W)
  unfolding period_end take_bar
  deliver c exec_close zero f = returns f
  deliver c exec_close (suc left) f =
      gate c exec_close f (deliver c exec_close left (take_bar f))
        (get_elem? f.rows f.context_cursor)

  abbrev pub bars_left : Clocked W → ℕ
  bars_left f = length f.rows - f.context_cursor

  abbrev pub unflagged : Clocked W → Clocked W
  unflagged f = record f { feed_advanced = false }

  unfoldable pub deliver_all :
      CivilCalendar → DateTime → List (Clocked W) → Throws (List (Clocked W))
  unfolding deliver
  deliver_all c exec_close [] = returns []
  deliver_all c exec_close (f ∷ fs) = deliver c exec_close (bars_left f) (unflagged f) >>= λ f'.
      deliver_all c exec_close fs >>= λ fs'. returns (f' ∷ fs')

  -- The time of the bar that the cursor is on: `datetime()[0]`.
  unfoldable pub open_time : Clocked W → Throws DateTime
  open_time f = elim (get_elem? f.rows f.index) [
    | none ↦ throws index_error
    | some row ↦ returns row.datetime
  ]

  -- The gated advance of the context feeds; without any, nothing is asked of the clock.
  unfoldable pub advance_contexts :
      CivilCalendar → Clocked W → List (Clocked W) → Throws (List (Clocked W))
  unfolding deliver_all close_of open_time
  advance_contexts c master [] = returns []
  advance_contexts c master (f ∷ fs) = open_time master >>= λ bar_open.
      close_of c master.timeframe bar_open >>= λ exec_close. deliver_all c exec_close (f ∷ fs)

  -- Whether a context feed is finer than the master: the test of the plan's order.
  unfoldable pub in_order : TimeFrameCompression → List (Clocked W) → Bool
  unfolding finer_than
  in_order exec_tf [] = true
  in_order exec_tf (f ∷ fs) = not (finer_than f.timeframe exec_tf) && in_order exec_tf fs
