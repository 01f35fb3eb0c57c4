-- ===== src/Live/Engine/Kept.antt =====
-- A relation that holds over the steps of the risk control holds over every event.
use Prim.Native.String.{String}
use strat_forge.Common.{
  ℕ, suc, ◌-◌, Bool, true, ◌&&◌, not, List, [], ◌∷◌, ◌++◌, map, ◌⊎◌, inl, inr, refl, if◌then◌else◌,
  leb, ◌==◌,
}
use strat_forge.Common.Int.{ℤ}
use strat_forge.Double.{Double}
use strat_forge.Broker.Currency.{DateTime}
use strat_forge.Broker.Settings.{set_bar_index}
use strat_forge.Broker.Live.{LiveBroker, LiveError, submit_live_order, cancel_live_order}
use strat_forge.Engine.Strategies.{Callback}
use strat_forge.Live.Risk.{
  LiveEngine, LiveDataFeed, Outgoing, send, check_order_rate, trigger_kill_switch,
  evaluate_risk_limits,
}
use strat_forge.Live.Risk.Kept.{
  IsKept, KeepsBy, either, same, send-Kept, take_over-Kept, close_live-Kept,
  evaluate_risk_limits-Kept,
}
use strat_forge.Live.Engine.{
  MarketDataSnapshot, LiveCall, LivePlan, LiveStrategy, has_feed, add_feed, ensure_feed,
  subscribe_all, answer_cancel, answer_submit, perform, carry_out_live, call_live, ready_from,
  phase_of, run_phase, handle_market_data, try_reconnect, push_snapshot, index_of_symbol,
  bars_pushed,
}

module _ {S W : Type 0} ⦃d : Double W⦄ (user : LiveStrategy S W) (per_second : ℕ)
    (R : LiveEngine S W → LiveEngine S W → Type 0) (kept : IsKept R)
    (by : (now : ℤ) → KeepsBy R (check_order_rate per_second now)) where
  cancel-Kept :
      (r : LiveError ⊎ LiveBroker W) (id : ℕ) (now : ℤ) (e : LiveEngine S W)
      → R e (answer_cancel user per_second r id now e).1
  cancel-Kept (inl x) id now e = same R kept e
  cancel-Kept (inr l) id now e =
      take_over-Kept R kept (check_order_rate per_second now) (by now) l e

  submit-Kept :
      (r : LiveError ⊎ (LiveBroker W × ℕ)) (now : ℤ) (e : LiveEngine S W)
      → R e (answer_submit user per_second r now e).1
  submit-Kept (inl x) now e = same R kept e
  submit-Kept (inr (l, id)) now e =
      take_over-Kept R kept (check_order_rate per_second now) (by now) l e

  perform-Kept :
      (now : ℤ) (c : LiveCall W) (e : LiveEngine S W) → R e (perform user per_second now c e).1
  unfolding perform
  perform-Kept now (LiveCall.submits side size params) e =
      submit-Kept (submit_live_order side size params e.live) now e
  perform-Kept now (LiveCall.cancels id) e = cancel-Kept (cancel_live_order id e.live) id now e
  perform-Kept now (LiveCall.closes i) e =
      close_live-Kept R kept (check_order_rate per_second now) (by now) i e

  strategy-Kept : (s : S) (e : LiveEngine S W) → R e (record e { strategy = s })
  strategy-Kept s e =
      kept.updates e (record e { strategy = s })
        (record { limits = refl; switch = refl; reason = refl; flattening = refl; orders = refl })

  carry_out-Kept :
      (now : ℤ) (plan : LivePlan S W) (e : LiveEngine S W)
      → R e (carry_out_live user per_second now plan e).1
  unfolding carry_out_live
  carry_out-Kept now (LivePlan.done s) e = strategy-Kept s e
  carry_out-Kept now (LivePlan.fails x s) e = strategy-Kept s e
  carry_out-Kept now (LivePlan.calls c k) e =
      let r = perform user per_second now c e in
      kept.then_ e r.1 _ (perform-Kept now c e) (carry_out-Kept now (k r.0 r.1.live) r.1)

  pub call-Kept :
      (now : ℤ) (cb : Callback) (e : LiveEngine S W) → R e (call_live user per_second now cb e).1
  unfolding call_live
  call-Kept now cb e = carry_out-Kept now (user.callback cb e.feeds e.live e.strategy) e

  run_phase-Kept :
      (now : ℤ) (ready : Bool) (e : LiveEngine S W) → R e (run_phase user per_second now ready e)
  unfolding run_phase
  run_phase-Kept now ready e =
      let r = call_live user per_second now (phase_of user per_second ready e.nextstart_fired) e in
      let e1 = record r.1 { nextstart_fired = if ready then true else e.nextstart_fired } in
      let called : R e r.1 = call-Kept now (phase_of user per_second ready e.nextstart_fired) e in
      let flagged : R r.1 e1 = kept.updates r.1 e1 (record {
        limits = refl;
        switch = refl;
        reason = refl;
        flattening = refl;
        orders = refl;
      }) in
      either R r.0 e (evaluate_risk_limits e1) r.1
        (kept.then_ e r.1 _ called
          (kept.then_ r.1 e1 _ flagged (evaluate_risk_limits-Kept R kept e1)))
        called

  add_feed-Kept : (symbol : String) (e : LiveEngine S W) → R e (add_feed symbol e)
  unfolding add_feed
  add_feed-Kept symbol e =
      let fs : List (LiveDataFeed W) = e.feeds ++ (record { name = symbol; bars = [] } ∷ []) in
      let e1 = record e {
        feeds = fs;
        live = record e.live { live_symbols = map (λ f. f.name) fs };
      } in
      either R (has_feed symbol e.feeds) e e e1 (same R kept e) (
        kept.updates e e1 (record {
          limits = refl;
          switch = refl;
          reason = refl;
          flattening = refl;
          orders = refl;
        }))

  pub told-Kept :
      (b : Bool) (symbol : String) (e : LiveEngine S W)
      → R e (if b then send (Outgoing.subscribes symbol) (add_feed symbol e) else add_feed symbol e)
  told-Kept b symbol e =
      let e1 = add_feed symbol e in
      either R b e (send (Outgoing.subscribes symbol) e1) e1
        (kept.then_ e e1 _ (add_feed-Kept symbol e)
          (send-Kept R kept (Outgoing.subscribes symbol) e1 refl))
        (add_feed-Kept symbol e)

  pub subscribe_all-Kept :
      (fs : List (LiveDataFeed W)) (e : LiveEngine S W) → R e (subscribe_all fs e)
  unfolding subscribe_all
  subscribe_all-Kept [] e = same R kept e
  subscribe_all-Kept (f ∷ fs) e =
      let e1 = send (Outgoing.subscribes f.name) e in
      kept.then_ e e1 _ (send-Kept R kept (Outgoing.subscribes f.name) e refl)
        (subscribe_all-Kept fs e1)

  pub prices-Kept :
      (now : ℤ) (stamp : DateTime) (snapshot : MarketDataSnapshot W) (e : LiveEngine S W)
      → R e (handle_market_data user per_second now stamp snapshot e)
  unfolding handle_market_data ensure_feed
  prices-Kept now stamp snapshot e =
      let e1 = record e { last_market_data_time = now; reconnect_attempts = 0 } in
      let e2 = ensure_feed snapshot.symbol e1 in
      let fs = push_snapshot snapshot stamp e2.feeds in
      let i = index_of_symbol snapshot.symbol fs in
      let e3 = record e2 {
        feeds = fs;
        live = record e2.live { broker = set_bar_index (bars_pushed i fs - 1) e2.live.broker };
      } in
      let timed : R e e1 = kept.updates e e1 (record {
        limits = refl;
        switch = refl;
        reason = refl;
        flattening = refl;
        orders = refl;
      }) in
      let pushed : R e2 e3 = kept.updates e2 e3 (record {
        limits = refl;
        switch = refl;
        reason = refl;
        flattening = refl;
        orders = refl;
      }) in
      kept.then_ e e1 _ timed (
        kept.then_ e1 e2 _
          (told-Kept (not (has_feed snapshot.symbol e1.feeds) && e1.started) snapshot.symbol e1)
          (kept.then_ e2 e3 _ pushed
            (run_phase-Kept now ((i == 0) && ready_from user per_second e3.strategy 0 fs) e3)))

  pub reconnect-Kept : (e : LiveEngine S W) → R e (try_reconnect user per_second e)
  unfolding try_reconnect
  reconnect-Kept e =
      let e1 = record e { reconnect_attempts = suc e.reconnect_attempts } in
      let e2 = send Outgoing.connects e1 in
      let counted : R e e1 = kept.updates e e1 (record {
        limits = refl;
        switch = refl;
        reason = refl;
        flattening = refl;
        orders = refl;
      }) in
      either R (not (e.started && e.limits.auto_reconnect)) e e _ (same R kept e) (
        either R (leb e.limits.max_reconnect_attempts e.reconnect_attempts) e
          (trigger_kill_switch "max reconnect attempts exceeded" e) (subscribe_all e.feeds e2)
          (kept.triggers "max reconnect attempts exceeded" e)
          (kept.then_ e e1 _ counted (
            kept.then_ e1 e2 _ (send-Kept R kept Outgoing.connects e1 refl)
              (subscribe_all-Kept e.feeds e2))))
