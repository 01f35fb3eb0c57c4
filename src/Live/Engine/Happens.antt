-- ===== src/Live/Engine/Happens.antt =====
-- Every event keeps what the steps of the risk control keep.
use strat_forge.Common.{ℕ, true, false, ◌&&◌, not, Option, none, some, map, refl, if◌then◌else◌}
use strat_forge.Common.Int.{ℤ, ◌-ℤ◌, leb_ℤ}
use strat_forge.Double.{Double}
use strat_forge.Broker.Trade.{Trade}
use strat_forge.Broker.Live.{record_live_fill}
use strat_forge.Engine.Strategies.{Callback}
use strat_forge.Live.Risk.{
  LiveEngine, Outgoing, send, check_order_rate, flatten_positions, trigger_kill_switch,
}
use strat_forge.Live.Risk.Kept.{IsKept, KeepsBy, either, same, send-Kept, evaluate_risk_limits-Kept}
use strat_forge.Live.Engine.{
  ConnectorState, LiveStrategy, subscribe, subscribe_all, call_live, handle_market_data,
  handle_fill, try_reconnect, handle_connector_state, check_heartbeat, start, stop,
  replace_strategy, Happening, occur, happen,
}
use strat_forge.Live.Engine.Kept.{
  call-Kept, subscribe_all-Kept, told-Kept, prices-Kept, reconnect-Kept,
}

module _ {S W : Type 0} ⦃d : Double W⦄ (user : LiveStrategy S W) (per_second : ℕ)
    (R : LiveEngine S W → LiveEngine S W → Type 0) (kept : IsKept R)
    (by : (now : ℤ) → KeepsBy R (check_order_rate per_second now)) where
  -- An event is allowed, where `stop` needs that the closing of all positions keeps the relation.
  abbrev pub Allows : Happening user per_second → Type 0
  Allows (Happening.stops now) =
      (e : LiveEngine S W) → R e (flatten_positions (check_order_rate per_second now) e)
  Allows _ = Unit

  state-Kept :
      (state : ConnectorState) (e : LiveEngine S W)
      → R e (handle_connector_state user per_second state e)
  unfolding handle_connector_state
  state-Kept ConnectorState.disconnected e =
      either R (e.started && not e.kill_switch_triggered) e _ e
        (either R e.limits.auto_reconnect e (try_reconnect user per_second e)
          (trigger_kill_switch "connector disconnected" e)
          (reconnect-Kept user per_second R kept by e) (kept.triggers "connector disconnected" e))
        (same R kept e)
  state-Kept ConnectorState.connecting e = same R kept e
  state-Kept ConnectorState.connected e = same R kept e
  state-Kept ConnectorState.reconnecting e = same R kept e
  state-Kept ConnectorState.error e = same R kept e

  heartbeat-Kept : (now : ℤ) (e : LiveEngine S W) → R e (check_heartbeat user per_second now e)
  unfolding check_heartbeat
  heartbeat-Kept now e = by_timeout e.limits.heartbeat_timeout
    where
      by_timeout :
          (o : Option ℤ)
          → R e (elim o [
            | none ↦ e
            | some timeout ↦
                if e.started
                  && not e.kill_switch_triggered
                  && leb_ℤ timeout (now -ℤ e.last_market_data_time)
                then trigger_kill_switch "heartbeat timeout" e
                else e
          ])
      by_timeout none = same R kept e
      by_timeout (some timeout) =
          either R
            (e.started
              && not e.kill_switch_triggered
              && leb_ℤ timeout (now -ℤ e.last_market_data_time))
            e (trigger_kill_switch "heartbeat timeout" e) e (kept.triggers "heartbeat timeout" e)
            (same R kept e)

  start-Kept : (now : ℤ) (e : LiveEngine S W) → R e (start user per_second now e)
  unfolding start
  start-Kept now e =
      let e1 = record e {
        live = record e.live { connected = true; live_symbols = map (λ f. f.name) e.feeds };
      } in
      let r2 = call_live user per_second now Callback.init e1 in
      let r3 = call_live user per_second now Callback.start r2.1 in
      let e4 = record r3.1 { active = true } in
      let e5 = send Outgoing.connects e4 in
      let e6 = subscribe_all r3.1.feeds e5 in
      let e7 = record e6 { last_market_data_time = now; started = true } in
      let k1 : R e e1 = kept.updates e e1 (record {
        limits = refl;
        switch = refl;
        reason = refl;
        flattening = refl;
        orders = refl;
      }) in
      let k2 : R e r2.1 =
        kept.then_ e e1 r2.1 k1 (call-Kept user per_second R kept by now Callback.init e1) in
      let k3 : R e r3.1 =
        kept.then_ e r2.1 r3.1 k2 (call-Kept user per_second R kept by now Callback.start r2.1) in
      let k4 : R r3.1 e4 = kept.updates r3.1 e4 (record {
        limits = refl;
        switch = refl;
        reason = refl;
        flattening = refl;
        orders = refl;
      }) in
      let k7 : R e6 e7 = kept.updates e6 e7 (record {
        limits = refl;
        switch = refl;
        reason = refl;
        flattening = refl;
        orders = refl;
      }) in
      let begun : R e e7 = kept.then_ e r3.1 e7 k3 (
        kept.then_ r3.1 e4 e7 k4 (
          kept.then_ e4 e5 e7 (send-Kept R kept Outgoing.connects e4 refl) (
            kept.then_ e5 e6 e7 (subscribe_all-Kept user per_second R kept by r3.1.feeds e5)
              k7))) in
      either R e.started e e _ (same R kept e)
        (either R (not r2.0) e r2.1 _ k2 (either R (not r3.0) e r3.1 e7 k3 begun))

  stop-Kept :
      (now : ℤ) (e : LiveEngine S W)
      → ((x : LiveEngine S W) → R x (flatten_positions (check_order_rate per_second now) x))
      → R e (stop user per_second now e)
  unfolding stop
  stop-Kept now e closes =
      let flat = flatten_positions (check_order_rate per_second now) e in
      let e1 = if e.limits.flatten_on_breach then flat else e in
      let r2 = call_live user per_second now Callback.stop e1 in
      let e3 = send Outgoing.disconnects r2.1 in
      let e4 = record e3 { started = false; active = false } in
      let k1 : R e e1 = either R e.limits.flatten_on_breach e flat e (closes e) (same R kept e) in
      let k2 : R e r2.1 =
        kept.then_ e e1 r2.1 k1 (call-Kept user per_second R kept by now Callback.stop e1) in
      let k4 : R e3 e4 = kept.updates e3 e4 (record {
        limits = refl;
        switch = refl;
        reason = refl;
        flattening = refl;
        orders = refl;
      }) in
      either R (not e.started) e e _ (same R kept e) (
        either R r2.0 e e4 r2.1
          (kept.then_ e r2.1 e4 k2
            (kept.then_ r2.1 e3 e4 (send-Kept R kept Outgoing.disconnects r2.1 refl) k4))
          k2)

  replace-Kept :
      (now : ℤ) (s : S) (e : LiveEngine S W) → R e (replace_strategy user per_second now s e)
  unfolding replace_strategy
  replace-Kept now s e =
      let r1 = call_live user per_second now Callback.stop e in
      let e1 = record r1.1 { strategy = s } in
      let r2 = call_live user per_second now Callback.init e1 in
      let r3 = call_live user per_second now Callback.start r2.1 in
      let fresh = record r3.1 { nextstart_fired = false } in
      let k1 : R e r1.1 = call-Kept user per_second R kept by now Callback.stop e in
      let k2 : R e r2.1 =
        kept.then_ e e1 r2.1 (kept.then_ e r1.1 e1 k1 (seated s r1.1))
          (call-Kept user per_second R kept by now Callback.init e1) in
      let k3 : R e r3.1 =
        kept.then_ e r2.1 r3.1 k2 (call-Kept user per_second R kept by now Callback.start r2.1) in
      let k4 : R r3.1 fresh = kept.updates r3.1 fresh (record {
        limits = refl;
        switch = refl;
        reason = refl;
        flattening = refl;
        orders = refl;
      }) in
      either R (not e.started) e e _ (same R kept e) (
        either R (not r1.0) e r1.1 _ k1 (
          either R (not r2.0) e (record r2.1 { strategy = r1.1.strategy }) _
            (kept.then_ e r2.1 _ k2 (seated r1.1.strategy r2.1))
            (either R r3.0 e fresh (record r3.1 { strategy = r1.1.strategy })
              (kept.then_ e r3.1 fresh k3 k4)
              (kept.then_ e r3.1 _ k3 (seated r1.1.strategy r3.1)))))
    where
      seated : (s' : S) (x : LiveEngine S W) → R x (record x { strategy = s' })
      seated s' x =
          kept.updates x (record x { strategy = s' })
            (record {
              limits = refl;
              switch = refl;
              reason = refl;
              flattening = refl;
              orders = refl;
            })

  filled : (trade : Trade W) (e : LiveEngine S W) → R e (handle_fill user per_second trade e)
  unfolding handle_fill
  filled trade e =
      let e1 = record e { live = record_live_fill trade e.live } in
      kept.then_ e e1 _
        (kept.updates e e1 (record {
          limits = refl;
          switch = refl;
          reason = refl;
          flattening = refl;
          orders = refl;
        }))
        (evaluate_risk_limits-Kept R kept e1)

  occur-Kept :
      (x : Happening user per_second) (e : LiveEngine S W)
      → Allows x
      → R e (occur user per_second x e)
  unfolding occur subscribe
  occur-Kept (Happening.prices now stamp snapshot) e a =
      either R e.active e (handle_market_data user per_second now stamp snapshot e) e
        (prices-Kept user per_second R kept by now stamp snapshot e) (same R kept e)
  occur-Kept (Happening.fills trade) e a =
      either R e.active e (handle_fill user per_second trade e) e (filled trade e) (same R kept e)
  occur-Kept (Happening.states state) e a =
      either R e.active e (handle_connector_state user per_second state e) e (state-Kept state e)
        (same R kept e)
  occur-Kept (Happening.heartbeats now) e a = heartbeat-Kept now e
  occur-Kept Happening.reconnects e a = reconnect-Kept user per_second R kept by e
  occur-Kept (Happening.subscribes symbol) e a =
      told-Kept user per_second R kept by e.started symbol e
  occur-Kept (Happening.starts now) e a = start-Kept now e
  occur-Kept (Happening.stops now) e a = stop-Kept now e a
  occur-Kept (Happening.replaces now s) e a = replace-Kept now s e

  pub happen-Kept :
      (x : Happening user per_second) (e : LiveEngine S W)
      → Allows x
      → R e (happen user per_second x e)
  unfolding happen
  happen-Kept x e a =
      either R e.terminated e e (occur user per_second x e) (same R kept e) (occur-Kept x e a)
