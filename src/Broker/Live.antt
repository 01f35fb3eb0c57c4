-- ===== src/Broker/Live.antt =====
-- Live mode of `BackBroker` in include/stratforge/broker/broker.hpp: orders go to a connector, and
-- fills come back by `record_live_fill` as snapshots of a trade.
pub mod Balance
use Prim.Native.String.{String, len}
use strat_forge.Common.{
  ℕ, suc, Bool, true, false, ◌&&◌, ◌||◌, not, Option, none, some, List, [], ◌∷◌, ◌++◌, ◌⊎◌, inl,
  inr, ◌==◌, if◌then◌else◌, get_elem?, keep_if,
}
use strat_forge.Double.{Double, ◌⊕◌, ◌⊖◌, ◌⊗◌, ◌⊘◌, nought, abs}
use strat_forge.Broker.Currency.{DateTime}
use strat_forge.Broker.Order.{Order, OrderSide, OrderStatus, submit, accept, cancel}
use strat_forge.Broker.Position.{update}
use strat_forge.Broker.Trade.{Trade, is_closed}
use strat_forge.Broker.State.{
  Broker, store, sync_order, notify_order, find_order, take_cash, instrument_for, position_of,
  put_position,
}
use strat_forge.Broker.TradeBook.{FillInfo, update_trades}
use strat_forge.Broker.Submit.{OrderParams, ask_hook, new_order}
use strat_forge.Broker.Fill.{settlement}

-- The exceptions that live mode throws.
pub data LiveError : Type 0 where
  no_connector no_symbol unknown_order : LiveError

-- What the connector is asked to do.
pub data Request (W : Type 0) : Type 0 where
  submits : Order W → Request W
  cancels : ℕ → Request W

-- A broker with the members of live mode; the requests stand in their order.
pub record LiveBroker (W : Type 0) : Type 0 where
  pub broker : Broker W
  pub connected : Bool
  pub live_symbols : List String
  pub live_trade_snapshots : List (ℕ × Trade W)
  pub requests : List (Request W)

module _ {W : Type 0} where
  unfoldable pub find_snapshot : ℕ → List (ℕ × Trade W) → Option (Trade W)
  find_snapshot i [] = none
  find_snapshot i ((k, t) ∷ m) = if k == i then some t else find_snapshot i m

  unfoldable pub put_snapshot : ℕ → Trade W → List (ℕ × Trade W) → List (ℕ × Trade W)
  put_snapshot i t [] = (i, t) ∷ []
  put_snapshot i t ((k, u) ∷ m) = if k == i then (k, t) ∷ m else (k, u) ∷ put_snapshot i t m

  unfoldable pub erase_snapshot : ℕ → List (ℕ × Trade W) → List (ℕ × Trade W)
  erase_snapshot i [] = []
  erase_snapshot i ((k, t) ∷ m) =
      let rest = erase_snapshot i m in if k == i then rest else (k, t) ∷ rest

  -- `sync_order`, `sync_pending_order` and the notification.
  unfoldable pub sync_both : Order W → Broker W → Broker W
  unfolding store sync_order notify_order
  sync_both o b =
      let b' = sync_order o b in
      notify_order o (record b' { pending_orders = store o b'.pending_orders })

module _ {W : Type 0} ⦃d : Double W⦄ where
  -- The part of `submit_live_order` after the hook: the order is stored, submitted and accepted, and
  -- goes to the connector.
  unfoldable pub send_live : Order W → LiveBroker W → LiveBroker W
  unfolding sync_both submit accept
  send_live o l =
      let b = l.broker in
      let b1 : Broker W = record b {
        next_order_id = suc b.next_order_id;
        all_orders = b.all_orders ++ (o ∷ []);
        pending_orders = b.pending_orders ++ (o ∷ []);
      } in
      let o1 = submit o in
      let o2 = accept o1 in
      record l {
        broker = sync_both o2 (sync_both o1 b1);
        requests = l.requests ++ (Request.submits o2 ∷ []);
      }

  unfoldable pub submit_live_order :
      OrderSide → W → OrderParams W → LiveBroker W → LiveError ⊎ (LiveBroker W × ℕ)
  unfolding ask_hook send_live
  submit_live_order side size params l =
      let b = l.broker in
      let por = ask_hook side size params.data_index b in
      let plain = new_order b.next_order_id side por params in
      if not l.connected
      then inl LiveError.no_connector
      else elim (get_elem? l.live_symbols params.data_index) [
        | none ↦ inl LiveError.no_symbol
        | some symbol ↦
            if len symbol == 0
            then inl LiveError.no_symbol
            else if por.rejected
            then inr (l, 0)
            else inr (send_live (record plain { symbol = some symbol }) l, plain.id)
      ]

  -- `cancel_order` in live mode, with its exception.
  unfoldable pub cancel_live_order : ℕ → LiveBroker W → LiveError ⊎ LiveBroker W
  unfolding find_order cancel sync_both
  cancel_live_order i l = elim (find_order i l.broker.all_orders) [
    | none ↦ inl LiveError.unknown_order
    | some o ↦ inr (record l {
      broker = sync_both (cancel o) l.broker;
      requests = l.requests ++ (Request.cancels i ∷ []);
    })
  ]

  -- The price of the part of a trade that is new since the last snapshot.
  unfoldable pub live_fill_price : Trade W → Option (Trade W) → W
  unfolding abs
  live_fill_price t none = t.entry_price
  live_fill_price t (some prev) =
      let fill_abs = abs (t.size ⊖ prev.size) in
      let sign : W = if d.lt nought prev.size then d.lit 1 else d.neg (d.lit 1) in
      let added : W =
        ((t.entry_price ⊗ abs t.size) ⊖ (prev.entry_price ⊗ abs prev.size)) ⊘ fill_abs in
      let reduced : W = prev.entry_price ⊕ (sign ⊗ ((t.pnl ⊖ prev.pnl) ⊘ fill_abs)) in
      if is_closed t && d.lt nought t.exit_price
      then t.exit_price
      else if (d.lt nought prev.size && d.lt prev.size t.size)
          || (d.lt prev.size nought && d.lt t.size prev.size)
      then if d.lt nought fill_abs then added else t.entry_price
      else if d.lt (abs t.size) (abs prev.size) && d.lt nought fill_abs
      then reduced
      else t.entry_price

  unfoldable pub is_terminal : Trade W → Order W → Bool
  unfolding abs
  is_terminal t o = is_closed t || d.le (o.size ⊖ d.tick) (abs t.size)

  abbrev pub live_time : Trade W → DateTime
  live_time t = if is_closed t then t.exit_time else t.entry_time

  -- Cash, position and trades after a live fill.
  unfoldable pub settle_live : Order W → W → W → W → Trade W → Broker W → Broker W
  unfolding take_cash instrument_for position_of put_position
  settle_live o fill price comm t b =
      let i = o.data_index in
      let p = position_of b i in
      let ccy = settlement (instrument_for b i) b.config.base_ccy in
      update_trades
        (record {
          data_index = i;
          old_size = p.size;
          fill_size = fill;
          fill_price = price;
          comm = comm;
          bar_index = b.data_bar_index;
          bar_dt = live_time t;
          candidate_id = o.candidate_id;
        })
        (record b {
          cash = take_cash ccy ((fill ⊗ price) ⊕ comm) b.cash;
          positions = put_position i (update p fill price) b.positions;
        })

  unfoldable pub executed_live : Order W → W → W → W → Trade W → Order W
  unfolding is_terminal abs
  executed_live o fill price comm t = record o {
    executed_size = o.executed_size ⊕ abs fill;
    executed_price = price;
    commission = o.commission ⊕ comm;
    status = if is_terminal t o then OrderStatus.completed else OrderStatus.partial;
  }

  unfoldable pub apply_live_execution : Order W → W → W → W → Trade W → Broker W → Broker W
  unfolding settle_live executed_live is_terminal sync_both
  apply_live_execution o fill price comm t b =
      let o' = executed_live o fill price comm t in
      let b' = sync_both o' (settle_live o fill price comm t b) in
      if is_terminal t o
      then record b' { pending_orders = keep_if (λ x. not (x.id == o.id)) b'.pending_orders }
      else b'

  abbrev pub size_before : Option (Trade W) → W
  size_before none = nought
  size_before (some prev) = prev.size

  abbrev pub commission_before : Option (Trade W) → W
  commission_before none = nought
  commission_before (some prev) = prev.commission

  -- The order's trade, as the connector sees it so far, arrives under the order's id.
  unfoldable pub record_live_fill : Trade W → LiveBroker W → LiveBroker W
  unfolding find_order find_snapshot put_snapshot erase_snapshot apply_live_execution
      live_fill_price is_terminal abs
  record_live_fill t l =
      let m = l.live_trade_snapshots in
      let prev = find_snapshot t.id m in
      let delta = t.size ⊖ size_before prev in
      let price = live_fill_price t prev in
      let comm = t.commission ⊖ commission_before prev in
      let kept = put_snapshot t.id t m in
      if not l.connected then l else elim (find_order t.id l.broker.all_orders) [
        | none ↦ l
        | some o ↦
            if d.lt (abs delta) d.tick then record l { live_trade_snapshots = kept } else record l {
              broker = apply_live_execution o delta price comm t l.broker;
              live_trade_snapshots = if is_terminal t o then erase_snapshot t.id kept else kept;
            }
      ]
