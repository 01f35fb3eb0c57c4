-- ===== src/Broker/Submit.antt =====
-- Submission and cancellation in include/stratforge/broker/broker.hpp: `submit_order`,
-- `submit_order_ext`, the brackets, `cancel_order` and `close`, outside live mode.
pub mod Numbering
pub mod Children
pub mod Sound
pub mod Brackets
use strat_forge.Common.{
  ℕ, suc, ◌+◌, Bool, true, false, ◌&&◌, Option, none, some, List, [], ◌∷◌, ◌++◌, ◌==◌,
  if◌then◌else◌,
}
use strat_forge.Double.{Double, nought, abs}
use strat_forge.Broker.Order.{Order, OrderType, OrderSide, OrderStatus, is_alive, cancel}
use strat_forge.Broker.Position.{is_flat, is_long}
use strat_forge.Broker.State.{
  Broker, PreOrderResult, sync_order, notify_order, position_of, put_position,
}

pub record OrderParams (W : Type 0) : Type 0 where
  pub type : OrderType
  pub price : W
  pub stop_price : Option W
  pub data_index : ℕ
  pub valid_until_bar : Option ℕ
  pub trail_amount : W
  pub trail_percent : W
  pub oco_group_id : ℕ
  pub parent_id : ℕ
  pub transmit : Bool

pub record BracketResult : Type 0 where
  pub main_id : ℕ
  pub stop_id : ℕ
  pub limit_id : ℕ

abbrev pub opposite : OrderSide → OrderSide
opposite OrderSide.buy = OrderSide.sell
opposite OrderSide.sell = OrderSide.buy

module _ {W : Type 0} ⦃d : Double W⦄ where
  -- The members of `OrderParams` that a caller leaves at their defaults.
  abbrev pub plain : OrderType → W → Option W → ℕ → OrderParams W
  plain type price stop_price data_index = record {
    type = type;
    price = price;
    stop_price = stop_price;
    data_index = data_index;
    valid_until_bar = none;
    trail_amount = nought;
    trail_percent = nought;
    oco_group_id = 0;
    parent_id = 0;
    transmit = true;
  }

  abbrev pub new_order : ℕ → OrderSide → PreOrderResult W → OrderParams W → Order W
  new_order id side por params = record {
    id = id;
    type = params.type;
    status = OrderStatus.created;
    side = side;
    size = por.final_size;
    price = params.price;
    stop_price = params.stop_price;
    symbol = none;
    executed_price = nought;
    executed_size = nought;
    commission = nought;
    data_index = params.data_index;
    candidate_id = por.candidate_id;
    valid_until_bar = params.valid_until_bar;
    trail_amount = params.trail_amount;
    trail_percent = params.trail_percent;
    trail_stop_price = nought;
    oco_group_id = params.oco_group_id;
    parent_id = params.parent_id;
    child_ids = [];
    transmit = params.transmit;
  }

  unfoldable pub ask_hook : OrderSide → W → ℕ → Broker W → PreOrderResult W
  ask_hook side size data_index b = elim b.config.pre_order_hook [
    | none ↦ record { candidate_id = 0; final_size = size; rejected = false }
    | some hook ↦ hook side size data_index
  ]

  -- The id of the order, or 0 if the hook refuses it.
  unfoldable pub submit_order_ext : OrderSide → W → OrderParams W → Broker W → Broker W × ℕ
  unfolding ask_hook
  submit_order_ext side size params b =
      let por = ask_hook side size params.data_index b in
      let o = new_order b.next_order_id side por params in
      if por.rejected then (b, 0) else (
        record b {
          next_order_id = suc b.next_order_id;
          all_orders = b.all_orders ++ (o ∷ []);
          pending_orders = b.pending_orders ++ (o ∷ []);
        },
        o.id,
      )

  unfoldable pub submit_order :
      OrderSide → W → W → Option W → OrderType → ℕ → Broker W → Broker W × ℕ
  unfolding submit_order_ext
  submit_order side size price stop_price type data_index =
      submit_order_ext side size (plain type price stop_price data_index)

  -- `o.child_ids = {limit_id, stop_id}` at the first order of the id.
  unfoldable pub set_children : ℕ → List ℕ → List (Order W) → List (Order W)
  set_children i kids [] = []
  set_children i kids (o ∷ os) =
      if o.id == i then record o { child_ids = kids } ∷ os else o ∷ set_children i kids os

  abbrev pub child_params : OrderType → W → Option W → ℕ → ℕ → ℕ → OrderParams W
  child_params type price stop_price data_index parent group =
      let p = plain type price stop_price data_index in
      record p { oco_group_id = group; parent_id = parent; transmit = false }

  -- `buy_bracket` and `sell_bracket`: a market order with a limit and a stop on the other side.
  unfoldable pub bracket : OrderSide → W → W → W → ℕ → Broker W → Broker W × BracketResult
  unfolding submit_order submit_order_ext set_children
  bracket side size limit_price stop_price data_index b =
      let group = b.next_oco_group_id in
      let (b1, main_id) =
        submit_order side size nought none OrderType.market data_index
          (record b { next_oco_group_id = suc group }) in
      let (b2, limit_id) =
        submit_order_ext (opposite side) size
          (child_params OrderType.limit limit_price none data_index main_id group) b1 in
      let (b3, stop_id) =
        submit_order_ext (opposite side) size
          (child_params OrderType.stop nought (some stop_price) data_index main_id group) b2 in
      let kids = limit_id ∷ stop_id ∷ [] in
      (
        record b3 {
          all_orders = set_children main_id kids b3.all_orders;
          pending_orders = set_children main_id kids b3.pending_orders;
        },
        record { main_id = main_id; stop_id = stop_id; limit_id = limit_id },
      )

  -- The loop of `cancel_order` over `pending_orders_`.
  unfoldable pub cancel_all :
      (Order W → Bool) → List (Order W) → Broker W → Broker W × List (Order W)
  unfolding sync_order notify_order cancel
  cancel_all test [] b = (b, [])
  cancel_all test (o ∷ os) b =
      let hit = test o && is_alive o in
      let o' = if hit then cancel o else o in
      let (b', os') = cancel_all test os (if hit then notify_order o' (sync_order o' b) else b) in
      (b', o' ∷ os')

  unfoldable pub cancel_order : ℕ → Broker W → Broker W
  unfolding cancel_all
  cancel_order i b =
      let (b', pending) = cancel_all (λ o. o.id == i) b.pending_orders b in
      record b' { pending_orders = pending }

  -- `get_position` appends the position if the feed has none yet.
  unfoldable pub close : ℕ → Broker W → Broker W × ℕ
  unfolding position_of put_position is_flat is_long submit_order abs
  close i b =
      let p = position_of b i in
      let b' = record b { positions = put_position i p b.positions } in
      if is_flat p
      then (b', 0)
      else if is_long p
      then submit_order OrderSide.sell (abs p.size) nought none OrderType.market i b'
      else submit_order OrderSide.buy (abs p.size) nought none OrderType.market i b'
