-- ===== src/Broker/Process.antt =====
-- `BackBroker::process_orders` of include/stratforge/broker/broker.hpp: one pass over the pending
-- orders at a bar. `pending_orders` is the vector that the loop walks by reference, and
-- `still_pending` the copies that outlive the pass.
pub mod Alive
pub mod Wrote
pub mod Handle
pub mod Cancels
pub mod Tend
pub mod Places
pub mod Walk
pub mod Frozen
pub mod Balance
pub mod Groups
pub mod Trail
use strat_forge.Common.{
  ℕ, zero, suc, ◌+◌, Bool, true, false, ◌&&◌, ◌||◌, not, Option, none, some, List, [], ◌∷◌, ◌++◌,
  ◌==◌, if◌then◌else◌, leb, ltb, length, get_elem?, set, keep_if,
}
use strat_forge.Double.{Double, ◌⊕◌, ◌⊖◌, ◌⊗◌, nought}
use strat_forge.Broker.Order.{
  Order, OrderType, OrderSide, OrderStatus, is_alive, is_completed, is_created, submit, accept,
  cancel, reject, expire,
}
use strat_forge.Broker.State.{Broker, Feed, sync_order, notify_order, is_parent_filled}
use strat_forge.Broker.Submit.{cancel_all}
use strat_forge.Broker.Fill.{try_fill_order}

pub record Pass (W : Type 0) : Type 0 where
  pub broker : Broker W
  pub still_pending : List (Order W)
  pub filled_oco_groups : List ℕ

-- What the loop body makes of an order: the broker and the order after it, whether a copy stays
-- pending, and whether `try_fill_order` returned true.
pub record Handled (W : Type 0) : Type 0 where
  pub broker : Broker W
  pub order : Order W
  pub stays : Bool
  pub done : Bool

abbrev pub is_trail : OrderType → Bool
is_trail OrderType.stop_trail = true
is_trail OrderType.stop_trail_limit = true
is_trail _ = false

abbrev pub is_failed : OrderStatus → Bool
is_failed OrderStatus.canceled = true
is_failed OrderStatus.rejected = true
is_failed OrderStatus.margin = true
is_failed OrderStatus.expired = true
is_failed _ = false

unfoldable pub contains : ℕ → List ℕ → Bool
contains g [] = false
contains g (h ∷ hs) = (g == h) || contains g hs

module _ {W : Type 0} where
  unfoldable pub activate : ℕ → List (Order W) → List (Order W)
  activate p [] = []
  activate p (o ∷ os) =
      (if (o.parent_id == p) && not o.transmit then record o { transmit = true } else o)
      ∷ activate p os

  abbrev pub has_children : Order W → Bool
  has_children o = elim o.child_ids [ [] ↦ false | _ ∷ _ ↦ true ]

module _ {W : Type 0} ⦃d : Double W⦄ where
  unfoldable pub trail_distance : Order W → W → W
  trail_distance o price =
      if d.lt nought o.trail_percent then price ⊗ o.trail_percent else o.trail_amount

  -- The stop of a sale follows the high up, that of a purchase the low down.
  unfoldable pub new_stop : Order W → Feed W → W
  unfolding trail_distance
  new_stop o f = elim o.side [
    | OrderSide.sell ↦ f.high ⊖ trail_distance o f.high
    | OrderSide.buy ↦ f.low ⊕ trail_distance o f.low
  ]

  unfoldable pub moves_stop : Order W → Feed W → Bool
  unfolding new_stop
  moves_stop o f = d.eq o.trail_stop_price nought || (elim o.side [
    | OrderSide.sell ↦ d.lt o.trail_stop_price (new_stop o f)
    | OrderSide.buy ↦ d.lt (new_stop o f) o.trail_stop_price
  ])

  unfoldable pub update_trail_stop : Order W → Feed W → Broker W → Broker W × Order W
  unfolding new_stop moves_stop sync_order
  update_trail_stop o f b =
      let o' = record o { trail_stop_price = new_stop o f } in
      if moves_stop o f then (sync_order o' b, o') else (b, o)

  unfoldable pub expired_at : ℕ → Order W → Bool
  expired_at bar o = elim o.valid_until_bar [ none ↦ false | some last ↦ ltb last bar ]

  abbrev pub tell : Order W → Broker W → Broker W
  tell o b = notify_order o (sync_order o b)

  -- `Created` becomes `Submitted` and `Accepted`, with a notification for each.
  unfoldable pub acknowledge : Order W → Broker W → Broker W × Order W
  unfolding sync_order notify_order submit accept
  acknowledge o b =
      let o1 = submit o in
      let o2 = accept o1 in if is_created o.status then (tell o2 (tell o1 b), o2) else (b, o)

  -- The attempt to fill, and the trailing stop of an order that stays.
  unfoldable pub attempt : Order W → Feed W → Broker W → Handled W
  unfolding try_fill_order update_trail_stop notify_order
  attempt o f b =
      let (b1, o1, filled) = try_fill_order b o f in
      let (b2, o2) = update_trail_stop o1 f b1 in
      if filled
      then record { broker = notify_order o1 b1; order = o1; stays = false; done = true }
      else if is_trail o.type
      then record { broker = b2; order = o2; stays = true; done = false }
      else record { broker = b1; order = o1; stays = true; done = false }

  abbrev keeps : Order W → Broker W → Handled W
  keeps o b = record { broker = b; order = o; stays = true; done = false }

  abbrev drops : Order W → Broker W → Handled W
  drops o b = record { broker = tell o b; order = o; stays = false; done = false }

  -- The loop body from the look-up of the feed on, for an order that is not held for its parent.
  unfoldable pub against_feed : Order W → List (Feed W) → Broker W → Handled W
  unfolding sync_order notify_order acknowledge attempt expired_at reject expire
  against_feed o feeds b = elim (get_elem? feeds o.data_index) [
    | none ↦ drops (reject o) b
    | some f ↦
        if (f.size == 0) || (f.buflen == 0)
        then keeps o b
        else if expired_at b.data_bar_index o
        then drops (expire o) b
        else (let (b1, o1) = acknowledge o b in attempt o1 f b1)
  ]

  abbrev pub is_held : Order W → Bool
  is_held o = not o.transmit && not (o.parent_id == 0)

  -- The loop body for a live order, up to the bookkeeping of groups and brackets.
  unfoldable pub handle : Order W → List (Feed W) → Broker W → Handled W
  unfolding against_feed is_parent_filled
  handle o feeds b =
      if is_held o
      then if is_parent_filled o.parent_id b.all_orders
        then against_feed (record o { transmit = true }) feeds b
        else keeps o b
      else against_feed o feeds b

  -- `activate_bracket_children` or `cancel_bracket_children`, for an order that is done with.
  unfoldable pub tend_children : Order W → Broker W → Broker W
  unfolding activate cancel_all
  tend_children o b =
      let woken =
        (if is_completed o.status && has_children o
          then activate o.id b.pending_orders
          else b.pending_orders) in
      let (b', pending) = cancel_all (λ c. c.parent_id == o.id) woken b in
      if (o.parent_id == 0) && has_children o && is_failed o.status
      then record b' { pending_orders = pending }
      else record b { pending_orders = woken }

  abbrev pub filled_group : Order W → List ℕ
  filled_group o =
      if not (o.oco_group_id == 0) && is_completed o.status then o.oco_group_id ∷ [] else []

  -- What follows the loop body's attempt: the order is written back and booked.
  unfoldable pub book : ℕ → Handled W → Pass W → Pass W
  book i h p =
      let hb = h.broker in
      let b = record hb { pending_orders = set hb.pending_orders i h.order } in
      if h.stays
      then record p { broker = b; still_pending = p.still_pending ++ (h.order ∷ []) }
      else if h.done
      then record p {
        broker = tend_children h.order b;
        filled_oco_groups = p.filled_oco_groups ++ filled_group h.order;
      }
      else record p { broker = b }

  unfoldable pub step_at : List (Feed W) → ℕ → Pass W → Pass W
  step_at feeds i p =
      let b = p.broker in
      elim (get_elem? b.pending_orders i) [
        | none ↦ p
        | some o ↦ if is_alive o then book i (handle o feeds b) p else p
      ]

  -- `rounds` orders from position i on.
  unfoldable pub walk : List (Feed W) → ℕ → ℕ → Pass W → Pass W
  walk feeds zero i p = p
  walk feeds (suc rounds) i p = walk feeds rounds (suc i) (step_at feeds i p)

  abbrev pub in_groups : List ℕ → Order W → Bool
  in_groups groups o = not (o.oco_group_id == 0) && contains o.oco_group_id groups

  -- The orders of a filled OCO group are cancelled and leave.
  unfoldable pub close_groups : List ℕ → List (Order W) → Broker W → Broker W
  unfolding cancel_all contains
  close_groups [] still_pending b = record b { pending_orders = still_pending }
  close_groups (g ∷ gs) still_pending b =
      let (b', left) = cancel_all (in_groups (g ∷ gs)) still_pending b in
      record b' { pending_orders = keep_if is_alive left }

  abbrev pub start_pass : Broker W → Pass W
  start_pass b = record { broker = b; still_pending = []; filled_oco_groups = [] }

  unfoldable pub process_orders : List (Feed W) → Broker W → Broker W
  process_orders feeds b =
      let p = walk feeds (length b.pending_orders) 0 (start_pass b) in
      close_groups p.filled_oco_groups p.still_pending p.broker
