-- ===== src/Live/Engine.antt =====
-- The events of `LiveEngine` in include/stratforge/live/live_engine.hpp: starting and stopping, prices,
-- fills, the connector's state and the heartbeat. A connector does not call back while it is called.
-- The callbacks of the caller only report. What a strategy computes is a parameter.
pub mod Kept
pub mod Happens
pub mod Latched
pub mod Muted
use Prim.Native.String.{String}
use text.Mathlib.Text.{◌==◌ as str_eq}
use strat_forge.Common.{
  ℕ, zero, suc, ◌+◌, ◌-◌, Bool, true, false, ◌&&◌, not, Option, none, some, List, [], ◌∷◌, ◌++◌,
  map, ◌⊎◌, inl, inr, if◌then◌else◌, ltb, leb, ◌==◌, length,
}
use strat_forge.Common.Int.{ℤ, pos, ◌-ℤ◌, leb_ℤ}
use strat_forge.Double.{Double}
use strat_forge.Broker.Currency.{DateTime}
use strat_forge.Broker.Order.{OrderSide}
use strat_forge.Broker.Trade.{Trade}
use strat_forge.Broker.State.{Broker}
use strat_forge.Broker.Settings.{set_bar_index}
use strat_forge.Broker.Submit.{OrderParams}
use strat_forge.Broker.Live.{
  LiveBroker, LiveError, submit_live_order, cancel_live_order, record_live_fill,
}
use strat_forge.Engine.Strategies.{Callback}
use strat_forge.Live.Risk.{
  LiveEngine, LiveDataFeed, LiveBar, Outgoing, send, take_over, close_live, check_order_rate,
  flatten_positions, trigger_kill_switch, evaluate_risk_limits,
}

pub data ConnectorState : Type 0 where
  disconnected connecting connected reconnecting error : ConnectorState

-- The part of a snapshot that the engine reads.
pub record MarketDataSnapshot (W : Type 0) : Type 0 where
  pub symbol : String
  pub last_price : W
  pub last_size : W

-- The calls of the broker that a strategy makes.
pub data LiveCall (W : Type 0) : Type 0 where
  submits : OrderSide → W → OrderParams W → LiveCall W
  cancels closes : ℕ → LiveCall W

-- What a callback does: it ends, lets an exception through, or calls the broker, and goes on by the
-- id or the exception that it gets.
pub data LivePlan (S W : Type 0) : Type 0 where
  done : S → LivePlan S W
  fails : LiveError → S → LivePlan S W
  calls : LiveCall W → (LiveError ⊎ ℕ → LiveBroker W → LivePlan S W) → LivePlan S W

pub record LiveStrategy (S W : Type 0) : Type 0 where
  pub minimum_period : S → ℕ → ℕ
  pub callback : Callback → List (LiveDataFeed W) → LiveBroker W → S → LivePlan S W

module _ {W : Type 0} where
  abbrev pub has_feed : String → List (LiveDataFeed W) → Bool
  has_feed symbol [] = false
  has_feed symbol (f ∷ fs) = if str_eq f.name symbol then true else has_feed symbol fs

  -- `index_of_symbol`, of a feed that is there.
  abbrev pub index_of_symbol : String → List (LiveDataFeed W) → ℕ
  index_of_symbol symbol [] = 0
  index_of_symbol symbol (f ∷ fs) =
      if str_eq f.name symbol then 0 else suc (index_of_symbol symbol fs)

  abbrev pub push_snapshot :
      MarketDataSnapshot W → DateTime → List (LiveDataFeed W) → List (LiveDataFeed W)
  push_snapshot snapshot stamp [] = []
  push_snapshot snapshot stamp (f ∷ fs) =
      let bar : LiveBar W = record {
        price = snapshot.last_price;
        volume = snapshot.last_size;
        timestamp = stamp;
      } in
      if str_eq f.name snapshot.symbol
      then record f { bars = f.bars ++ (bar ∷ []) } ∷ fs
      else f ∷ push_snapshot snapshot stamp fs

  abbrev pub bars_pushed : ℕ → List (LiveDataFeed W) → ℕ
  bars_pushed i [] = 0
  bars_pushed zero (f ∷ fs) = length f.bars
  bars_pushed (suc i) (f ∷ fs) = bars_pushed i fs

module _ {S W : Type 0} ⦃d : Double W⦄ where
  -- A symbol that is not there gets a feed.
  unfoldable pub add_feed : String → LiveEngine S W → LiveEngine S W
  add_feed symbol e =
      let fs : List (LiveDataFeed W) = e.feeds ++ (record { name = symbol; bars = [] } ∷ []) in
      if has_feed symbol e.feeds
      then e
      else record e { feeds = fs; live = record e.live { live_symbols = map (λ f. f.name) fs } }

  unfoldable pub ensure_feed : String → LiveEngine S W → LiveEngine S W
  unfolding add_feed
  ensure_feed symbol e =
      let e' = add_feed symbol e in
      if not (has_feed symbol e.feeds) && e.started
      then send (Outgoing.subscribes symbol) e'
      else e'

  unfoldable pub subscribe : String → LiveEngine S W → LiveEngine S W
  unfolding add_feed
  subscribe symbol e =
      let e' = add_feed symbol e in if e.started then send (Outgoing.subscribes symbol) e' else e'

  unfoldable pub subscribe_all : List (LiveDataFeed W) → LiveEngine S W → LiveEngine S W
  subscribe_all [] e = e
  subscribe_all (f ∷ fs) e = subscribe_all fs (send (Outgoing.subscribes f.name) e)

module _ {S W : Type 0} ⦃d : Double W⦄ (user : LiveStrategy S W) (per_second : ℕ) where
  abbrev pub answer_cancel :
      LiveError ⊎ LiveBroker W → ℕ → ℤ → LiveEngine S W → (LiveError ⊎ ℕ) × LiveEngine S W
  answer_cancel (inl x) id now e = (inl x, e)
  answer_cancel (inr l) id now e = (inr id, take_over (check_order_rate per_second now) l e)

  abbrev pub answer_submit :
      LiveError ⊎ (LiveBroker W × ℕ) → ℤ → LiveEngine S W → (LiveError ⊎ ℕ) × LiveEngine S W
  answer_submit (inl x) now e = (inl x, e)
  answer_submit (inr (l, id)) now e = (inr id, take_over (check_order_rate per_second now) l e)

  unfoldable pub perform : ℤ → LiveCall W → LiveEngine S W → (LiveError ⊎ ℕ) × LiveEngine S W
  unfolding submit_live_order cancel_live_order take_over check_order_rate close_live
  perform now (LiveCall.submits side size params) e =
      answer_submit (submit_live_order side size params e.live) now e
  perform now (LiveCall.cancels id) e = answer_cancel (cancel_live_order id e.live) id now e
  perform now (LiveCall.closes i) e = close_live (check_order_rate per_second now) i e

  -- Whether the callback returns, and the engine after it.
  unfoldable pub carry_out_live : ℤ → LivePlan S W → LiveEngine S W → Bool × LiveEngine S W
  unfolding perform
  carry_out_live now (LivePlan.done s) e = (true, record e { strategy = s })
  carry_out_live now (LivePlan.fails x s) e = (false, record e { strategy = s })
  carry_out_live now (LivePlan.calls c k) e =
      let (answer, e') = perform now c e in carry_out_live now (k answer e'.live) e'

  unfoldable pub call_live : ℤ → Callback → LiveEngine S W → Bool × LiveEngine S W
  unfolding carry_out_live
  call_live now cb e = carry_out_live now (user.callback cb e.feeds e.live e.strategy) e

  unfoldable pub ready_from : S → ℕ → List (LiveDataFeed W) → Bool
  ready_from s k [] = true
  ready_from s k (f ∷ fs) =
      not (ltb (length f.bars) (user.minimum_period s k)) && ready_from s (suc k) fs

  -- Feed 0 is the execution clock.
  abbrev pub phase_of : Bool → Bool → Callback
  phase_of execution_ready fired =
      if not execution_ready
      then Callback.prenext
      else if fired
      then Callback.next
      else Callback.nextstart

  -- The lifecycle callback and what follows it, unless it throws.
  unfoldable pub run_phase : ℤ → Bool → LiveEngine S W → LiveEngine S W
  unfolding call_live evaluate_risk_limits
  run_phase now execution_ready e =
      let (returned, e') = call_live now (phase_of execution_ready e.nextstart_fired) e in
      let fired = if execution_ready then true else e.nextstart_fired in
      if returned then evaluate_risk_limits (record e' { nextstart_fired = fired }) else e'

  -- `stamp` is the time of the system's clock.
  unfoldable pub handle_market_data :
      ℤ → DateTime → MarketDataSnapshot W → LiveEngine S W → LiveEngine S W
  unfolding ensure_feed ready_from run_phase set_bar_index
  handle_market_data now stamp snapshot e0 =
      let e1 = record e0 { last_market_data_time = now; reconnect_attempts = 0 } in
      let e2 = ensure_feed snapshot.symbol e1 in
      let fs = push_snapshot snapshot stamp e2.feeds in
      let i = index_of_symbol snapshot.symbol fs in
      let e3 = record e2 {
        feeds = fs;
        live = record e2.live { broker = set_bar_index (bars_pushed i fs - 1) e2.live.broker };
      } in
      run_phase now ((i == 0) && ready_from e3.strategy 0 fs) e3

  unfoldable pub handle_fill : Trade W → LiveEngine S W → LiveEngine S W
  unfolding record_live_fill evaluate_risk_limits
  handle_fill trade e = evaluate_risk_limits (record e { live = record_live_fill trade e.live })

  unfoldable pub try_reconnect : LiveEngine S W → LiveEngine S W
  unfolding trigger_kill_switch subscribe_all
  try_reconnect e =
      let e' = record e { reconnect_attempts = suc e.reconnect_attempts } in
      if not (e.started && e.limits.auto_reconnect)
      then e
      else if leb e.limits.max_reconnect_attempts e.reconnect_attempts
      then trigger_kill_switch "max reconnect attempts exceeded" e
      else subscribe_all e.feeds (send Outgoing.connects e')

  unfoldable pub handle_connector_state : ConnectorState → LiveEngine S W → LiveEngine S W
  unfolding trigger_kill_switch try_reconnect
  handle_connector_state ConnectorState.disconnected e =
      if e.started && not e.kill_switch_triggered
      then if e.limits.auto_reconnect
        then try_reconnect e
        else trigger_kill_switch "connector disconnected" e
      else e
  handle_connector_state _ e = e

  unfoldable pub check_heartbeat : ℤ → LiveEngine S W → LiveEngine S W
  unfolding trigger_kill_switch ◌-ℤ◌
  check_heartbeat now e = elim e.limits.heartbeat_timeout [
    | none ↦ e
    | some timeout ↦
        if e.started
          && not e.kill_switch_triggered
          && leb_ℤ timeout (now -ℤ e.last_market_data_time)
        then trigger_kill_switch "heartbeat timeout" e
        else e
  ]

  -- `start` after the members of the broker and of the strategy are set.
  unfoldable pub start : ℤ → LiveEngine S W → LiveEngine S W
  unfolding call_live subscribe_all
  start now e =
      let e1 = record e {
        live = record e.live { connected = true; live_symbols = map (λ f. f.name) e.feeds };
      } in
      let (returned, e2) = call_live now Callback.init e1 in
      let (returned', e3) = call_live now Callback.start e2 in
      let e4 = subscribe_all e3.feeds (send Outgoing.connects (record e3 { active = true })) in
      if e.started
      then e
      else if not returned
      then e2
      else if not returned'
      then e3
      else record e4 { last_market_data_time = now; started = true }

  -- An exception of the strategy leaves the engine started.
  unfoldable pub stop : ℤ → LiveEngine S W → LiveEngine S W
  unfolding flatten_positions check_order_rate call_live
  stop now e =
      let e1 =
        if e.limits.flatten_on_breach
        then flatten_positions (check_order_rate per_second now) e
        else e in
      let (returned, e2) = call_live now Callback.stop e1 in
      let e3 = send Outgoing.disconnects e2 in
      if not e.started
      then e
      else if returned
      then record e3 { started = false; active = false }
      else e2

  -- `replace_strategy`. If a callback of the new strategy throws, the old one stays.
  unfoldable pub replace_strategy : ℤ → S → LiveEngine S W → LiveEngine S W
  unfolding call_live
  replace_strategy now new_strategy e =
      let (stopped, e1) = call_live now Callback.stop e in
      let (prepared, e2) = call_live now Callback.init (record e1 { strategy = new_strategy }) in
      let (begun, e3) = call_live now Callback.start e2 in
      if not e.started
      then e
      else if not stopped
      then e1
      else if not prepared
      then record e2 { strategy = e1.strategy }
      else if begun
      then record e3 { nextstart_fired = false }
      else record e3 { strategy = e1.strategy }

  -- What happens to an engine; its own callbacks are let through while the gate is active.
  pub data Happening : Type 0 where
    prices : ℤ → DateTime → MarketDataSnapshot W → Happening
    fills : Trade W → Happening
    states : ConnectorState → Happening
    heartbeats : ℤ → Happening
    reconnects : Happening
    subscribes : String → Happening
    starts stops : ℤ → Happening
    replaces : ℤ → S → Happening

  unfoldable pub occur : Happening → LiveEngine S W → LiveEngine S W
  unfolding handle_market_data handle_fill handle_connector_state check_heartbeat try_reconnect
      subscribe start stop replace_strategy
  occur (Happening.prices now stamp snapshot) e =
      if e.active then handle_market_data now stamp snapshot e else e
  occur (Happening.fills trade) e = if e.active then handle_fill trade e else e
  occur (Happening.states state) e = if e.active then handle_connector_state state e else e
  occur (Happening.heartbeats now) e = check_heartbeat now e
  occur Happening.reconnects e = try_reconnect e
  occur (Happening.subscribes symbol) e = subscribe symbol e
  occur (Happening.starts now) e = start now e
  occur (Happening.stops now) e = stop now e
  occur (Happening.replaces now new_strategy) e = replace_strategy now new_strategy e

  -- Nothing happens to an engine whose program is ended.
  unfoldable pub happen : Happening → LiveEngine S W → LiveEngine S W
  unfolding occur
  happen x e = if e.terminated then e else occur x e

  unfoldable pub happen_all : List Happening → LiveEngine S W → LiveEngine S W
  unfolding happen
  happen_all [] e = e
  happen_all (x ∷ xs) e = happen_all xs (happen x e)
