-- ===== src/Broker/Fill.antt =====
-- `BackBroker::try_fill_order` and what it calls, of include/stratforge/broker/broker.hpp: the price
-- that an order's trigger gives, slippage, the margin check, and the fill.
pub mod Prices
pub mod Effect
pub mod Cash
pub mod Balance
use strat_forge.Common.{
  ℕ, Bool, true, false, ◌&&◌, ◌||◌, not, Option, none, some, if◌then◌else◌, ltb,
}
use strat_forge.Common.Int.{pos}
use strat_forge.Double.{Double, ◌⊕◌, ◌⊖◌, ◌⊗◌, nought, abs, fmin, fmax, clamp}
use strat_forge.Broker.Currency.{Currency, DateTime, same_ccy, iso_number}
use strat_forge.Broker.Order.{Order, OrderType, OrderSide, reject, to_margin, execute}
use strat_forge.Broker.Commission.{calculate}
use strat_forge.Broker.Instrument.{Instrument}
use strat_forge.Broker.Position.{update}
use strat_forge.Broker.State.{
  Broker, Config, Feed, sync_order, cash_in, take_cash, instrument_for, position_of, put_position,
}
use strat_forge.Broker.TradeBook.{FillInfo, update_trades}

-- What the switch over the order types comes to.
pub data Trigger (W : Type 0) : Type 0 where
  refused waits : Trigger W
  fills : W → Trigger W

-- `apply_open_slippage`; `apply_limit_slippage` is its negation.
abbrev pub open_slippage : OrderType → Bool
open_slippage OrderType.market = true
open_slippage OrderType.limit = false
open_slippage OrderType.stop = true
open_slippage OrderType.stop_limit = false
open_slippage OrderType.stop_trail = true
open_slippage OrderType.stop_trail_limit = false

module _ {W : Type 0} ⦃d : Double W⦄ where
  unfoldable pub at_limit : OrderSide → W → Feed W → Trigger W
  unfolding fmin fmax
  at_limit OrderSide.buy price f =
      if d.le f.low price then Trigger.fills (fmin price f.open_price) else Trigger.waits
  at_limit OrderSide.sell price f =
      if d.le price f.high then Trigger.fills (fmax price f.open_price) else Trigger.waits

  unfoldable pub at_stop : OrderSide → W → Feed W → Trigger W
  unfolding fmin fmax
  at_stop OrderSide.buy stop f =
      if d.le stop f.high then Trigger.fills (fmax stop f.open_price) else Trigger.waits
  at_stop OrderSide.sell stop f =
      if d.le f.low stop then Trigger.fills (fmin stop f.open_price) else Trigger.waits

  -- The limit price counts once the stop price is touched in the same bar.
  unfoldable pub at_stop_limit : OrderSide → W → W → Feed W → Trigger W
  unfolding at_limit
  at_stop_limit OrderSide.buy stop price f =
      if d.le stop f.high then at_limit OrderSide.buy price f else Trigger.waits
  at_stop_limit OrderSide.sell stop price f =
      if d.le f.low stop then at_limit OrderSide.sell price f else Trigger.waits

  unfoldable pub by_type : OrderType → Order W → Feed W → Trigger W
  unfolding at_limit at_stop at_stop_limit
  by_type OrderType.market o f = Trigger.fills f.open_price
  by_type OrderType.limit o f = at_limit o.side o.price f
  by_type OrderType.stop o f = elim o.stop_price [
    | none ↦ Trigger.refused
    | some stop ↦ at_stop o.side stop f
  ]
  by_type OrderType.stop_limit o f = elim o.stop_price [
    | none ↦ Trigger.refused
    | some stop ↦ at_stop_limit o.side stop o.price f
  ]
  by_type OrderType.stop_trail o f =
      if d.eq o.trail_stop_price nought then Trigger.waits else at_stop o.side o.trail_stop_price f
  by_type OrderType.stop_trail_limit o f =
      if d.eq o.trail_stop_price nought
      then Trigger.waits
      else at_stop_limit o.side o.trail_stop_price o.price f

  unfoldable pub trigger : Order W → Feed W → Trigger W
  unfolding by_type
  trigger o f = by_type o.type o f

  unfoldable pub slipped_price : Config W → W → OrderSide → W
  slipped_price c raw side =
      if not (d.eq c.slip_perc nought)
      then raw ⊗ (elim side [
        | OrderSide.buy ↦ d.lit 1 ⊕ c.slip_perc
        | OrderSide.sell ↦ d.lit 1 ⊖ c.slip_perc
      ])
      else if not (d.eq c.slip_fixed nought)
      then raw ⊕ (elim side [ OrderSide.buy ↦ c.slip_fixed | OrderSide.sell ↦ d.neg c.slip_fixed ])
      else raw

  unfoldable pub apply_slippage : Config W → W → OrderSide → Feed W → Option W
  unfolding slipped_price clamp
  apply_slippage c raw side f =
      let adjusted = slipped_price c raw side in
      if c.slip_out
      then some adjusted
      else if d.le f.low adjusted && d.le adjusted f.high
      then some adjusted
      else if c.slip_match
      then some (clamp adjusted f.low f.high)
      else none

  abbrev pub slips : Config W → OrderType → Bool
  slips c t = (open_slippage t && c.slip_open) || (not (open_slippage t) && c.slip_limit)

  unfoldable pub final_price : Config W → Order W → W → Feed W → Option W
  unfolding apply_slippage
  final_price c o raw f = if slips c o.type then apply_slippage c raw o.side f else some raw

  unfoldable pub bar_time : Feed W → DateTime
  bar_time f = if ltb 0 f.size then f.datetime else pos 0

  abbrev pub signed_size : Order W → W
  signed_size o = elim o.side [ OrderSide.buy ↦ o.size | OrderSide.sell ↦ d.neg o.size ]

  abbrev pub settlement : Option (Instrument W) → Currency → Currency
  settlement none base = base
  settlement (some i) base = i.settlement_ccy

  unfoldable pub fill_cost : Broker W → Order W → W → W
  unfolding instrument_for calculate
  fill_cost b o price = elim (instrument_for b o.data_index) [
    | none ↦ calculate b.config.legacy_commission o.size price
    | some i ↦ i.venue.fees o.size price i.settlement_ccy
  ]

  -- The money at hand for an instrument: its currency, and the base currency at the going rate.
  unfoldable pub funds : Broker W → Instrument W → DateTime → W
  unfolding cash_in
  funds b i at_time =
      let base = b.config.base_ccy in
      let have = cash_in i.settlement_ccy b.cash in
      if same_ccy i.settlement_ccy base then have else elim b.config.fx [
        | none ↦ have
        | some rate ↦ have ⊕ (rate base i.settlement_ccy at_time ⊗ cash_in base b.cash)
      ]

  -- The check of a purchase that sends an order to `Margin`; a sale always passes.
  unfoldable pub unaffordable : Broker W → Order W → W → W → DateTime → Bool
  unfolding instrument_for funds cash_in
  unaffordable b o price comm at_time = elim o.side [
    | OrderSide.sell ↦ false
    | OrderSide.buy ↦ elim (instrument_for b o.data_index) [
      | none ↦ d.lt (cash_in b.config.base_ccy b.cash) ((signed_size o ⊗ price) ⊕ comm)
      | some i ↦ d.lt (funds b i at_time) (i.initial_margin o.size price ⊕ comm)
    ]
  ]

  -- Cash, position and trades after a fill at a price, in the code's order.
  unfoldable pub settle : Broker W → Order W → W → W → DateTime → Broker W
  unfolding take_cash instrument_for position_of put_position
  settle b o price comm at_time =
      let i = o.data_index in
      let fill = signed_size o in
      let p = position_of b i in
      let ccy = settlement (instrument_for b i) b.config.base_ccy in
      update_trades
        (record {
          data_index = i;
          old_size = p.size;
          fill_size = fill;
          fill_price = price;
          comm = comm;
          bar_index = b.data_bar_index;
          bar_dt = at_time;
          candidate_id = o.candidate_id;
        })
        (record b {
          cash = take_cash ccy ((fill ⊗ price) ⊕ comm) b.cash;
          positions = put_position i (update p fill price) b.positions;
        })

  unfoldable pub fill_at : Broker W → Order W → W → DateTime → Broker W × Order W × Bool
  unfolding fill_cost unaffordable settle sync_order
  fill_at b o price at_time =
      let comm = fill_cost b o price in
      let short = to_margin o in
      let done = execute price o.size comm o in
      if unaffordable b o price comm at_time
      then (sync_order short b, short, true)
      else (sync_order done (settle b o price comm at_time), done, true)

  unfoldable pub try_fill_order : Broker W → Order W → Feed W → Broker W × Order W × Bool
  unfolding trigger final_price fill_at sync_order bar_time
  try_fill_order b o f = elim (trigger o f) [
    | refused ↦ (sync_order (reject o) b, reject o, true)
    | waits ↦ (b, o, false)
    | fills raw ↦ elim (final_price b.config o raw f) [
      | none ↦ (b, o, false)
      | some price ↦ fill_at b o price (bar_time f)
    ]
  ]
