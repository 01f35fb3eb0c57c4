-- ===== src/Broker/Process/Handle.antt =====
-- What the loop body of a pass does to the order book: it writes one order, under that order's id.
use strat_forge.Common.{
  true, ◌||◌, List, ◌≡◌, refl, ap, arith, get_elem?, Bool-cases, Option-cases, inl, inr, ◌==◌,
}
use strat_forge.Double.{Double}
use strat_forge.Broker.Currency.{DateTime}
use strat_forge.Broker.Order.{Order, is_created, submit, accept, reject, expire, to_margin, execute}
use strat_forge.Broker.State.{Broker, Feed, store, sync_order, notify_order, is_parent_filled}
use strat_forge.Broker.State.Books.{IsMirrored}
use strat_forge.Broker.TradeBook.{FillInfo, update_trades}
use strat_forge.Broker.Fill.{
  Trigger, try_fill_order, fill_at, settle, fill_cost, unaffordable, trigger, final_price, bar_time,
}
use strat_forge.Broker.Process.{
  handle, against_feed, attempt, acknowledge, update_trail_stop, expired_at, moves_stop, new_stop,
  is_trail, is_held,
}
use strat_forge.Broker.Process.Wrote.{Wrote, Wrote-refl, Wrote-trans, notify-Wrote, store-Wrote}

module _ {W : Type 0} ⦃d : Double W⦄ where
  -- Trades, positions and cash leave the orders alone.
  pub record SameOrders (b b' : Broker W) : Type 0 where
    pub all : b'.all_orders ≡ b.all_orders
    pub pending : b'.pending_orders ≡ b.pending_orders
    pub next_id : b'.next_order_id ≡ b.next_order_id

  pub update_trades-SameOrders : (f : FillInfo W) (b : Broker W) → SameOrders b (update_trades f b)
  unfolding update_trades
  update_trades-SameOrders f b = ground arith

  pub settle-SameOrders :
      (b : Broker W) (o : Order W) (price comm : W) (at_time : DateTime)
      → SameOrders b (settle b o price comm at_time)
  unfolding settle
  settle-SameOrders b o price comm at_time =
      let s = update_trades-SameOrders _ _ in
      record { all = s.all; pending = s.pending; next_id = s.next_id }

  execute-id : (p s c : W) (o : Order W) → (execute p s c o).id ≡ o.id
  unfolding execute
  execute-id p s c o = ground arith

  execute-parent : (p s c : W) (o : Order W) → (execute p s c o).parent_id ≡ o.parent_id
  unfolding execute
  execute-parent p s c o = ground arith

  fill_at-Wrote :
      (b : Broker W) (o : Order W) (price : W) (at_time : DateTime)
      → IsMirrored b.all_orders o
      → let (b', o', _) = fill_at b o price at_time in Wrote b o b' o'
  unfolding fill_at sync_order to_margin execute
  fill_at-Wrote b o price at_time m =
      let comm = fill_cost b o price in
      let kept = settle-SameOrders b o price comm at_time in
      let done = execute price o.size comm o in
      elim (Bool-cases (unaffordable b o price comm at_time)) [
        | inl e ↦ rw e (store-Wrote b o (to_margin o) _ m refl refl refl refl refl)
        | inr e ↦ rw e (
            store-Wrote b o done (sync_order done (settle b o price comm at_time)) m
              (execute-id price o.size comm o) (execute-parent price o.size comm o)
              (ap (store done) kept.all) kept.pending kept.next_id)
      ]

  try_fill-Wrote :
      (b : Broker W) (o : Order W) (f : Feed W)
      → IsMirrored b.all_orders o
      → let (b', o', _) = try_fill_order b o f in Wrote b o b' o'
  unfolding try_fill_order sync_order reject
  try_fill-Wrote b o f m = go (trigger o f) refl
    where
      go :
          (t : Trigger W)
          → trigger o f ≡ t
          → let (b', o', _) = try_fill_order b o f in Wrote b o b' o'
      go Trigger.refused e =
          rw (e, try_fill_order) (store-Wrote b o (reject o) _ m refl refl refl refl refl)
      go Trigger.waits e = rw (e, try_fill_order) (Wrote-refl b o m)
      go (Trigger.fills raw) e = elim (Option-cases (final_price b.config o raw f)) [
        | inl n ↦ rw (e, try_fill_order, n) (Wrote-refl b o m)
        | inr (price, n) ↦ rw (e, try_fill_order, n) (fill_at-Wrote b o price (bar_time f) m)
      ]

  update_trail-Wrote :
      (o : Order W) (f : Feed W) (b : Broker W)
      → IsMirrored b.all_orders o
      → let (b', o') = update_trail_stop o f b in Wrote b o b' o'
  unfolding update_trail_stop sync_order
  update_trail-Wrote o f b m = elim (Bool-cases (moves_stop o f)) [
    | inl e ↦ rw e (
        store-Wrote b o (record o { trail_stop_price = new_stop o f }) _ m refl refl refl refl refl)
    | inr e ↦ rw e (Wrote-refl b o m)
  ]

  attempt-Wrote :
      (o : Order W) (f : Feed W) (b : Broker W)
      → IsMirrored b.all_orders o
      → let h = attempt o f b in Wrote b o h.broker h.order
  unfolding attempt notify_order
  attempt-Wrote o f b m =
      let first = try_fill-Wrote b o f m in
      let (b1, o1, filled) = try_fill_order b o f in
      elim (Bool-cases filled) [
        | inl e ↦ rw (e, attempt) (notify-Wrote o1 first)
        | inr e ↦ elim (Bool-cases (is_trail o.type)) [
          | inl t ↦
              rw (e, attempt, t) (Wrote-trans first (update_trail-Wrote o1 f b1 first.mirrored))
          | inr t ↦ rw (e, attempt, t) first
        ]
      ]

  acknowledge-Wrote :
      (o : Order W) (b : Broker W)
      → IsMirrored b.all_orders o
      → let (b', o') = acknowledge o b in Wrote b o b' o'
  unfolding acknowledge sync_order notify_order submit accept
  acknowledge-Wrote o b m = elim (Bool-cases (is_created o.status)) [
    | inl e ↦
        let b1 = notify_order (submit o) (sync_order (submit o) b) in
        let first = store-Wrote b o (submit o) b1 m refl refl refl refl refl in
        rw e (
          Wrote-trans first (
            store-Wrote b1 (submit o) (accept (submit o)) _ first.mirrored refl refl refl refl
              refl))
    | inr e ↦ rw e (Wrote-refl b o m)
  ]

  against_feed-Wrote :
      (o : Order W) (fs : List (Feed W)) (b : Broker W)
      → IsMirrored b.all_orders o
      → let h = against_feed o fs b in Wrote b o h.broker h.order
  unfolding against_feed sync_order notify_order reject expire
  against_feed-Wrote o fs b m = elim (Option-cases (get_elem? fs o.data_index)) [
    | inl e ↦ rw (e, against_feed) (store-Wrote b o (reject o) _ m refl refl refl refl refl)
    | inr (f, e) ↦ elim (Bool-cases ((f.size == 0) || (f.buflen == 0))) [
      | inl z ↦ rw (e, against_feed, z) (Wrote-refl b o m)
      | inr z ↦ elim (Bool-cases (expired_at b.data_bar_index o)) [
        | inl x ↦
            rw (e, against_feed, z, x) (store-Wrote b o (expire o) _ m refl refl refl refl refl)
        | inr x ↦
            let (b1, o1) = acknowledge o b in
            let first = acknowledge-Wrote o b m in
            rw (e, against_feed, z, x) (Wrote-trans first (attempt-Wrote o1 f b1 first.mirrored))
      ]
    ]
  ]

  pub handle-Wrote :
      (o : Order W) (fs : List (Feed W)) (b : Broker W)
      → IsMirrored b.all_orders o
      → let h = handle o fs b in Wrote b o h.broker h.order
  unfolding handle
  handle-Wrote o fs b m = elim (Bool-cases (is_held o)) [
    | inl e ↦ elim (Bool-cases (is_parent_filled o.parent_id b.all_orders)) [
      | inl p ↦
          let sent = against_feed-Wrote (record o { transmit = true }) fs b m in
          rw (e, handle, p)
            (record {
              id = sent.id;
              parent_id = sent.parent_id;
              mirrored = sent.mirrored;
              pending = sent.pending;
              same_ids = sent.same_ids;
              next_id = sent.next_id;
              others = sent.others;
            })
      | inr p ↦ rw (e, handle, p) (Wrote-refl b o m)
    ]
    | inr e ↦ rw (e, handle) (against_feed-Wrote o fs b m)
  ]
