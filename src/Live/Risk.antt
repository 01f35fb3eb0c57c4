-- ===== src/Live/Risk.antt =====
-- The state of `LiveEngine` in include/stratforge/live/live_engine.hpp, and how it limits risk: the rate
-- of orders, the kill switch and the closing of all positions. The real connector's calls are a list
-- in the state, and the clock stands still while an event is handled. A symbol is not empty, so that
-- `close` does not throw; a null connector or strategy is not built.
pub mod Kept
pub mod Rate
use Prim.Native.String.{String}
use strat_forge.Common.{
  ℕ, zero, suc, ◌+◌, Bool, true, false, not, ◌&&◌, ◌==◌, Option, none, some, List, [], ◌∷◌, ◌++◌,
  map, ◌⊎◌, inl, inr, if◌then◌else◌, ltb, leb, length, get_elem?,
}
use strat_forge.Common.Int.{ℤ, pos, ◌-ℤ◌, ltb_ℤ}
use strat_forge.Double.{Double, ◌⊖◌, ◌⊗◌, ◌⊘◌, nought, abs}
use strat_forge.Broker.Currency.{DateTime}
use strat_forge.Broker.Order.{Order, OrderSide, OrderType}
use strat_forge.Broker.Position.{Position, is_flat, is_long}
use strat_forge.Broker.State.{Broker, Feed, position_of, put_position}
use strat_forge.Broker.Submit.{OrderParams}
use strat_forge.Broker.Live.{LiveBroker, LiveError, Request, submit_live_order}
use strat_forge.Broker.Value.{portfolio_value}

-- `reconnect_interval` is not read by the engine, and `heartbeat_timeout` is in ticks of the clock.
pub record LiveRiskLimits (W : Type 0) : Type 0 where
  pub max_abs_position : Option W
  pub max_drawdown_percent : Option W
  pub max_orders_per_second : Option ℕ
  pub heartbeat_timeout : Option ℤ
  pub flatten_on_breach : Bool
  pub auto_reconnect : Bool
  pub max_reconnect_attempts : ℕ

-- A price that was pushed: every price of its bar is the last one.
pub record LiveBar (W : Type 0) : Type 0 where
  pub price : W
  pub volume : W
  pub timestamp : DateTime

pub record LiveDataFeed (W : Type 0) : Type 0 where
  pub name : String
  pub bars : List (LiveBar W)

-- What the connector is asked to do.
pub data Outgoing (W : Type 0) : Type 0 where
  connects disconnects : Outgoing W
  subscribes : String → Outgoing W
  sends : Order W → Outgoing W
  cancels : ℕ → Outgoing W

-- `active` is the callback gate's. The feeds stand in the order of `feed_names_`. `terminated` says that
-- an exception left a `noexcept` function, which ends the program.
pub record LiveEngine (S W : Type 0) : Type 0 where
  pub limits : LiveRiskLimits W
  pub strategy : S
  pub live : LiveBroker W
  pub feeds : List (LiveDataFeed W)
  pub started : Bool
  pub active : Bool
  pub nextstart_fired : Bool
  pub kill_switch_triggered : Bool
  pub flattening : Bool
  pub kill_switch_reason : String
  pub peak_portfolio_value : W
  pub order_timestamps : List ℤ
  pub last_market_data_time : ℤ
  pub reconnect_attempts : ℕ
  pub outbox : List (Outgoing W)
  pub terminated : Bool

abbrev pub drop_first {ℓ} : {A : Type ℓ} → ℕ → List A → List A
drop_first zero xs = xs
drop_first (suc n) [] = []
drop_first (suc n) (x ∷ xs) = drop_first n xs

-- The stale times at the front are dropped; `per_second` is the number of clock ticks in a second.
unfoldable pub purge : ℕ → ℤ → List ℤ → List ℤ
unfolding ◌-ℤ◌
purge per_second now [] = []
purge per_second now (t ∷ ts) =
    let rest = purge per_second now ts in if ltb_ℤ (pos per_second) (now -ℤ t) then rest else t ∷ ts

module _ {W : Type 0} ⦃d : Double W⦄ where
  -- Whether some position is above the limit, from the i-th feed on.
  unfoldable pub too_large : W → ℕ → ℕ → Broker W → Bool
  unfolding position_of abs
  too_large limit i zero b = false
  too_large limit i (suc left) b =
      let rest = too_large limit (suc i) left b in
      if d.lt limit (abs (position_of b i).size) then true else rest

  unfoldable pub drawn_down : W → W → Option W → Bool
  drawn_down peak value none = false
  drawn_down peak value (some limit) =
      if d.lt nought peak then d.le limit ((peak ⊖ value) ⊘ peak ⊗ d.lit 100) else false

  -- The current bar of a feed, as the broker reads it.
  abbrev pub last_bar : List (LiveBar W) → Option (LiveBar W)
  last_bar [] = none
  last_bar (x ∷ []) = some x
  last_bar (x ∷ y ∷ xs) = last_bar (y ∷ xs)

  -- Whether `portfolio_value` reads a price of a feed that has none, which throws.
  unfoldable pub unreadable : List (LiveDataFeed W) → List (Position W) → Bool
  unfolding is_flat
  unreadable fs [] = false
  unreadable fs (p ∷ ps) =
      let rest = unreadable fs ps in
      let without : Bool = elim (get_elem? fs p.data_index) [
        | none ↦ false
        | some f ↦ length f.bars == 0
      ] in
      if not (is_flat p) && without then true else rest

  -- A feed that has no bar is read only where `unreadable` is false.
  unfoldable pub live_view : LiveDataFeed W → Feed W
  live_view f = elim (last_bar f.bars) [
    | none ↦ record {
      size = 0;
      buflen = 0;
      open_price = nought;
      high = nought;
      low = nought;
      close = nought;
      datetime = pos 0;
    }
    | some bar ↦ record {
      size = length f.bars;
      buflen = 1;
      open_price = bar.price;
      high = bar.price;
      low = bar.price;
      close = bar.price;
      datetime = bar.timestamp;
    }
  ]

  abbrev pub market_order : ℕ → OrderParams W
  market_order i = record {
    type = OrderType.market;
    price = nought;
    stop_price = none;
    data_index = i;
    valid_until_bar = none;
    trail_amount = nought;
    trail_percent = nought;
    oco_group_id = 0;
    parent_id = 0;
    transmit = true;
  }

module _ {S W : Type 0} ⦃d : Double W⦄ where
  abbrev pub send : Outgoing W → LiveEngine S W → LiveEngine S W
  send x e = record e { outbox = e.outbox ++ (x ∷ []) }

  -- The wrapper around the connector, for the broker's new requests.
  unfoldable pub route :
      (LiveEngine S W → Bool × LiveEngine S W) → List (Request W) → LiveEngine S W → LiveEngine S W
  route check [] e = e
  route check (Request.submits o ∷ rs) e =
      let (passes, e') = check e in
      route check rs (if passes then send (Outgoing.sends o) e' else e')
  route check (Request.cancels i ∷ rs) e = route check rs (send (Outgoing.cancels i) e)

  -- The engine after a call of the broker.
  unfoldable pub take_over :
      (LiveEngine S W → Bool × LiveEngine S W) → LiveBroker W → LiveEngine S W → LiveEngine S W
  unfolding route
  take_over check l e =
      route check (drop_first (length e.live.requests) l.requests) (record e { live = l })

  -- `close` of the broker in live mode.
  unfoldable pub close_live :
      (LiveEngine S W → Bool × LiveEngine S W)
      → ℕ
      → LiveEngine S W
      → (LiveError ⊎ ℕ) × LiveEngine S W
  unfolding position_of put_position is_flat is_long submit_live_order take_over abs
  close_live check i e =
      let l = e.live in
      let p = position_of l.broker i in
      let l1 : LiveBroker W = record l {
        broker = record l.broker { positions = put_position i p l.broker.positions };
      } in
      let side : OrderSide = if is_long p then OrderSide.sell else OrderSide.buy in
      if is_flat p
      then (inr 0, record e { live = l1 })
      else elim (submit_live_order side (abs p.size) (market_order i) l1) [
        | inl error ↦ (inl error, record e { live = l1 })
        | inr (l2, id) ↦ (inr id, take_over check l2 e)
      ]

  -- The loop of `flatten_positions`, from the i-th feed on.
  unfoldable pub flatten_from :
      (LiveEngine S W → Bool × LiveEngine S W) → ℕ → ℕ → LiveEngine S W → LiveEngine S W
  unfolding close_live position_of is_flat
  flatten_from check i zero e = e
  flatten_from check i (suc left) e =
      flatten_from check (suc i) left
        (if is_flat (position_of e.live.broker i) then e else (close_live check i e).1)

  unfoldable pub flatten_positions :
      (LiveEngine S W → Bool × LiveEngine S W) → LiveEngine S W → LiveEngine S W
  unfolding flatten_from
  flatten_positions check e =
      let e' = flatten_from check 0 (length e.feeds) (record e { flattening = true }) in
      record e' { flattening = false }

  -- `check_order_rate` once the kill switch is triggered.
  unfoldable pub killed_check : LiveEngine S W → Bool × LiveEngine S W
  killed_check e = elim e.limits.max_orders_per_second [
    | none ↦ (true, e)
    | some max ↦ (e.flattening, e)
  ]

  -- The positions are closed with the switch on, when `check_order_rate` is `killed_check`.
  unfoldable pub trigger_kill_switch : String → LiveEngine S W → LiveEngine S W
  unfolding flatten_positions killed_check
  trigger_kill_switch reason e =
      let e' = record e { kill_switch_triggered = true; kill_switch_reason = reason } in
      if e.kill_switch_triggered
      then e
      else if e.limits.flatten_on_breach
      then flatten_positions killed_check e'
      else e'

  -- `check_order_rate` with the limit that is set.
  unfoldable pub check_within : ℕ → ℤ → Option ℕ → LiveEngine S W → Bool × LiveEngine S W
  unfolding trigger_kill_switch purge
  check_within per_second now none e = (true, e)
  check_within per_second now (some max) e =
      let recent = purge per_second now e.order_timestamps in
      let purged = record e { order_timestamps = recent } in
      if e.kill_switch_triggered
      then (e.flattening, e)
      else if leb max (length recent)
      then (false, trigger_kill_switch "order rate limit exceeded" purged)
      else (true, record e { order_timestamps = recent ++ (now ∷ []) })

  unfoldable pub check_order_rate : ℕ → ℤ → LiveEngine S W → Bool × LiveEngine S W
  unfolding check_within
  check_order_rate per_second now e = check_within per_second now e.limits.max_orders_per_second e

  unfoldable pub evaluate_risk_limits : LiveEngine S W → LiveEngine S W
  unfolding trigger_kill_switch portfolio_value live_view unreadable too_large drawn_down
  evaluate_risk_limits e =
      let value = portfolio_value e.live.broker (map live_view e.feeds) in
      let peak = if d.lt e.peak_portfolio_value value then value else e.peak_portfolio_value in
      let e' = record e { peak_portfolio_value = peak } in
      let large : Bool = elim e.limits.max_abs_position [
        | none ↦ false
        | some limit ↦ too_large limit 0 (length e.feeds) e.live.broker
      ] in
      if e.kill_switch_triggered
      then e
      else if unreadable e.feeds e.live.broker.positions
      then record e { terminated = true }
      else if drawn_down peak value e.limits.max_drawdown_percent
      then trigger_kill_switch "max drawdown breached" e'
      else if large
      then trigger_kill_switch "max position breached" e'
      else e'
