-- ===== src/Broker/State.antt =====
-- include/stratforge/broker/broker.hpp: the state of `BackBroker` and the look-ups in it. A call of a registered callback is an entry of `events`; callbacks do not call back into the
-- broker.
pub mod Books
use strat_forge.Common.{
  ℕ, Bool, true, false, Option, none, some, List, [], ◌∷◌, ◌++◌, ◌==◌, if◌then◌else◌, leb,
}
use strat_forge.Double.{Double, ◌⊕◌, ◌⊖◌, ◌⊗◌, nought}
use strat_forge.Broker.Currency.{Currency, FxRateProvider, DateTime, same_ccy}
use strat_forge.Broker.Order.{Order, OrderSide, OrderStatus, is_completed}
use strat_forge.Broker.Commission.{CommissionInfo}
use strat_forge.Broker.Instrument.{Instrument}
use strat_forge.Broker.Position.{Position}
use strat_forge.Broker.Trade.{Trade}

-- corrective/corrective_contracts.hpp: what the pre-order hook answers.
pub record PreOrderResult (W : Type 0) : Type 0 where
  pub candidate_id : ℕ
  pub final_size : W
  pub rejected : Bool

-- A feed as the broker sees it: how many bars it has and has left, and its current bar.
pub record Feed (W : Type 0) : Type 0 where
  pub size : ℕ
  pub buflen : ℕ
  pub open_price : W
  pub high : W
  pub low : W
  pub close : W
  pub datetime : DateTime

-- `order_notify_` and `trade_notify_`.
pub data Event (W : Type 0) : Type 0 where
  order_event : Order W → Event W
  trade_event : Trade W → W → Event W

pub record Config (W : Type 0) : Type 0 where
  pub base_ccy : Currency
  pub fx : Option (FxRateProvider W)
  pub legacy_commission : CommissionInfo W
  pub slip_perc : W
  pub slip_fixed : W
  pub slip_open : Bool
  pub slip_limit : Bool
  pub slip_match : Bool
  pub slip_out : Bool
  pub instrument_map : List (ℕ × Option (Instrument W))
  pub pre_order_hook : Option (OrderSide → W → ℕ → PreOrderResult W)

pub record Broker (W : Type 0) : Type 0 where
  pub config : Config W
  pub initial_cash : W
  pub cash : List (Currency × W)
  pub next_order_id : ℕ
  pub next_trade_id : ℕ
  pub next_oco_group_id : ℕ
  pub data_bar_index : ℕ
  pub all_orders : List (Order W)
  pub pending_orders : List (Order W)
  pub positions : List (Position W)
  pub open_trades : List (Trade W × W)
  pub closed_trades : List (Trade W × W)
  pub events : List (Event W)

module _ {W : Type 0} ⦃d : Double W⦄ where
  -- `cash_` is a map whose missing entries read as 0.0.
  unfoldable pub cash_in : Currency → List (Currency × W) → W
  cash_in c [] = nought
  cash_in c ((k, v) ∷ m) = if same_ccy k c then v else cash_in c m

  unfoldable pub put_cash : Currency → W → List (Currency × W) → List (Currency × W)
  put_cash c v [] = (c, v) ∷ []
  put_cash c v ((k, w) ∷ m) = if same_ccy k c then (k, v) ∷ m else (k, w) ∷ put_cash c v m

  -- `cash_[ccy] -= amount`
  unfoldable pub take_cash : Currency → W → List (Currency × W) → List (Currency × W)
  take_cash c amount m = put_cash c (cash_in c m ⊖ amount) m

  unfoldable pub init : Currency → W → Option (FxRateProvider W) → CommissionInfo W → Broker W
  unfolding put_cash
  init ccy cash fx commission = record {
    config = record {
      base_ccy = ccy;
      fx = fx;
      legacy_commission = commission;
      slip_perc = nought;
      slip_fixed = nought;
      slip_open = true;
      slip_limit = true;
      slip_match = true;
      slip_out = false;
      instrument_map = [];
      pre_order_hook = none;
    };
    initial_cash = cash;
    cash = put_cash ccy cash [];
    next_order_id = 1;
    next_trade_id = 1;
    next_oco_group_id = 1;
    data_bar_index = 0;
    all_orders = [];
    pending_orders = [];
    positions = [];
    open_trades = [];
    closed_trades = [];
    events = [];
  }

module _ {W : Type 0} where
  unfoldable pub find_instrument : ℕ → List (ℕ × Option (Instrument W)) → Option (Instrument W)
  find_instrument i [] = none
  find_instrument i ((k, v) ∷ m) = if k == i then v else find_instrument i m

  unfoldable pub instrument_for : Broker W → ℕ → Option (Instrument W)
  unfolding find_instrument
  instrument_for b i = find_instrument i b.config.instrument_map

  unfoldable pub find_order : ℕ → List (Order W) → Option (Order W)
  find_order i [] = none
  find_order i (o ∷ os) = if o.id == i then some o else find_order i os

  -- The assignment of `sync_order` and `sync_pending_order` to the first order of the same id.
  unfoldable pub store : Order W → List (Order W) → List (Order W)
  store o [] = []
  store o (s ∷ ss) = if s.id == o.id then o ∷ ss else s ∷ store o ss

  unfoldable pub sync_order : Order W → Broker W → Broker W
  unfolding store
  sync_order o b = record b { all_orders = store o b.all_orders }

  unfoldable pub notify_order : Order W → Broker W → Broker W
  notify_order o b = record b { events = b.events ++ (Event.order_event o ∷ []) }

  unfoldable pub is_parent_filled : ℕ → List (Order W) → Bool
  unfolding find_order
  is_parent_filled p os = elim (find_order p os) [ none ↦ false | some o ↦ is_completed o.status ]

module _ {W : Type 0} ⦃d : Double W⦄ where
  abbrev fresh_position : Option (Instrument W) → ℕ → Position W
  fresh_position instrument i = record {
    instrument = instrument;
    data_index = i;
    size = nought;
    avg_price = nought;
    price = nought;
    price_orig = nought;
    upopened = nought;
    upclosed = nought;
  }

  unfoldable pub find_position : ℕ → List (Position W) → Option (Position W)
  find_position i [] = none
  find_position i (p ∷ ps) = if p.data_index == i then some p else find_position i ps

  -- `position(data_index)`, with the static empty position where there is none.
  unfoldable pub position : Broker W → ℕ → Position W
  unfolding find_position
  position b i = elim (find_position i b.positions) [ none ↦ fresh_position none 0 | some p ↦ p ]

  -- The position that `get_position` returns a reference to.
  unfoldable pub position_of : Broker W → ℕ → Position W
  unfolding find_position instrument_for
  position_of b i = elim (find_position i b.positions) [
    | none ↦ fresh_position (instrument_for b i) i
    | some p ↦ p
  ]

  -- An update through that reference: in place, or at the end if `get_position` appended it.
  unfoldable pub put_position : ℕ → Position W → List (Position W) → List (Position W)
  put_position i q [] = q ∷ []
  put_position i q (p ∷ ps) = if p.data_index == i then q ∷ ps else p ∷ put_position i q ps
