-- ===== src/Broker/Order.antt =====
-- include/stratforge/broker/order.hpp: an order and the changes of its status.
pub mod Lifecycle
use Prim.Native.String.{String}
use strat_forge.Common.{ℕ, Bool, true, false, not, Option, List, if◌then◌else◌, ◌==◌}
use strat_forge.Double.{Double, ◌⊕◌}

pub data OrderType : Type 0 where
  market limit stop stop_limit stop_trail stop_trail_limit : OrderType

pub data OrderStatus : Type 0 where
  created submitted accepted partial completed canceled rejected expired margin : OrderStatus

pub data OrderSide : Type 0 where
  buy sell : OrderSide

pub record Order (W : Type 0) : Type 0 where
  pub id : ℕ
  pub type : OrderType
  pub status : OrderStatus
  pub side : OrderSide
  pub size : W
  pub price : W
  pub stop_price : Option W
  pub symbol : Option String
  pub executed_price : W
  pub executed_size : W
  pub commission : W
  pub data_index : ℕ
  pub candidate_id : ℕ
  pub valid_until_bar : Option ℕ
  pub trail_amount : W
  pub trail_percent : W
  pub trail_stop_price : W
  pub oco_group_id : ℕ
  pub parent_id : ℕ
  pub child_ids : List ℕ
  pub transmit : Bool

abbrev pub alive : OrderStatus → Bool
alive OrderStatus.created = true
alive OrderStatus.submitted = true
alive OrderStatus.accepted = true
alive OrderStatus.partial = true
alive OrderStatus.completed = false
alive OrderStatus.canceled = false
alive OrderStatus.rejected = false
alive OrderStatus.expired = false
alive OrderStatus.margin = false

abbrev pub is_completed : OrderStatus → Bool
is_completed OrderStatus.completed = true
is_completed _ = false

abbrev pub is_created : OrderStatus → Bool
is_created OrderStatus.created = true
is_created _ = false

module _ {W : Type 0} where
  abbrev pub is_alive : Order W → Bool
  is_alive o = alive o.status

  abbrev pub is_complete : Order W → Bool
  is_complete o = not (is_alive o)

  -- A change of status, which a terminal order ignores.
  abbrev pub move_to : OrderStatus → Order W → Order W
  move_to s o = record o { status = if is_complete o then o.status else s }

  unfoldable pub submit : Order W → Order W
  submit = move_to OrderStatus.submitted

  unfoldable pub accept : Order W → Order W
  accept = move_to OrderStatus.accepted

  unfoldable pub cancel : Order W → Order W
  cancel = move_to OrderStatus.canceled

  unfoldable pub reject : Order W → Order W
  reject = move_to OrderStatus.rejected

  unfoldable pub expire : Order W → Order W
  expire = move_to OrderStatus.expired

  unfoldable pub to_margin : Order W → Order W
  to_margin = move_to OrderStatus.margin

  unfoldable pub execute : W → W → W → Order W → Order W
  execute fill_price fill_size comm o = if is_complete o then o else record o {
    executed_price = fill_price;
    executed_size = fill_size;
    commission = comm;
    status = OrderStatus.completed;
  }

  unfoldable pub partial_fill : ⦃d : Double W⦄ → W → W → W → Order W → Order W
  partial_fill fill_price fill_size comm o = if is_complete o then o else record o {
    executed_price = fill_price;
    executed_size = o.executed_size ⊕ fill_size;
    commission = o.commission ⊕ comm;
    status = OrderStatus.partial;
  }
