-- ===== src/Examples/Data.antt =====
-- A broker, bars and orders for the tests.
use strat_forge.Common.{true, false, List, [], ◌∷◌, none}
use strat_forge.Common.Int.{ℤ, pos}
use strat_forge.Double.Lots.{lots}
use strat_forge.Broker.Currency.{Currency}
use strat_forge.Broker.Commission.{CommissionInfo, CommissionType}
use strat_forge.Broker.Order.{Order, OrderType, OrderSide, OrderStatus}
use strat_forge.Broker.State.{Broker, Feed, init}
use strat_forge.Broker.Submit.{OrderParams, plain}
use strat_forge.Broker.History.{Act}

abbrev pub one_each : CommissionInfo ℤ
one_each = record { type = CommissionType.fixed; commission = pos 1; min_commission = pos 0 }

-- A bar from 9 to 12 that opens at 10.
abbrev pub bar : Feed ℤ
bar = record {
  size = 5;
  buflen = 5;
  open_price = pos 10;
  high = pos 12;
  low = pos 9;
  close = pos 11;
  datetime = pos 7;
}

abbrev pub late_bar : Feed ℤ
late_bar = record {
  size = 6;
  buflen = 6;
  open_price = pos 15;
  high = pos 17;
  low = pos 14;
  close = pos 16;
  datetime = pos 8;
}

abbrev pub at_market : OrderParams ℤ
at_market = plain OrderType.market (pos 0) none 0

-- A purchase at the market that the next bar fills.
abbrev pub purchase : List (Act ℤ)
purchase = Act.submits OrderSide.buy (pos 3) at_market ∷ Act.bars 4 (bar ∷ []) ∷ []

abbrev pub aftermath : List (Act ℤ)
aftermath =
    Act.cancels 1
    ∷ Act.brackets OrderSide.buy (pos 2) (pos 16) (pos 8) 0
    ∷ Act.bars 5 (late_bar ∷ [])
    ∷ Act.closes 0
    ∷ Act.bars 6 (bar ∷ [])
    ∷ []

abbrev pub order_of : OrderType → OrderSide → OrderStatus → ℤ → ℤ → Order ℤ
order_of type side status size price = record {
  id = 1;
  type = type;
  status = status;
  side = side;
  size = size;
  price = price;
  stop_price = none;
  symbol = none;
  executed_price = pos 0;
  executed_size = pos 0;
  commission = pos 0;
  data_index = 0;
  candidate_id = 0;
  valid_until_bar = none;
  trail_amount = pos 0;
  trail_percent = pos 0;
  trail_stop_price = pos 0;
  oco_group_id = 0;
  parent_id = 0;
  child_ids = [];
  transmit = true;
}

-- The purchase after its fill at 10, with the commission of 1.
abbrev pub bought : Order ℤ
bought =
    let o = order_of OrderType.market OrderSide.buy OrderStatus.completed (pos 3) (pos 0) in
    record o { executed_price = pos 10; executed_size = pos 3; commission = pos 1 }

-- The broker of the tests, before and after its first purchase.
abbrev pub new_broker : Broker ℤ
unfolding init
new_broker = init Currency.usd (pos 1000) none one_each

abbrev pub limit_buy : Order ℤ
limit_buy = order_of OrderType.limit OrderSide.buy OrderStatus.accepted (pos 3) (pos 11)

-- A sale that trails the high by 2, with its stop at 8.
abbrev pub trailing : Order ℤ
trailing =
    let o = order_of OrderType.stop_trail OrderSide.sell OrderStatus.accepted (pos 3) (pos 0) in
    record o { trail_amount = pos 2; trail_stop_price = pos 8 }

-- Two orders of one group: the first fills at the bar and the second waits.
abbrev pub first_of_group : Order ℤ
first_of_group = let o = limit_buy in record o { oco_group_id = 7 }

abbrev pub second_of_group : Order ℤ
second_of_group =
    let o = order_of OrderType.limit OrderSide.buy OrderStatus.accepted (pos 3) (pos 2) in
    record o { id = 2; oco_group_id = 7 }

abbrev pub group_broker : Broker ℤ
group_broker =
    let b = new_broker in
    record b {
      next_order_id = 3;
      all_orders = first_of_group ∷ second_of_group ∷ [];
      pending_orders = first_of_group ∷ second_of_group ∷ [];
    }

-- The broker with slippage of 1, but none on limit orders.
abbrev pub careful_broker : Broker ℤ
careful_broker =
    let b = new_broker in
    let c = b.config in record b { config = record c { slip_fixed = pos 1; slip_limit = false } }
