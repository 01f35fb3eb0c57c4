-- ===== src/Examples/Passes.antt =====
-- Passes over pending orders.
use strat_forge.Common.{[], ◌∷◌, ◌≡◌, some, refl, arith}
use strat_forge.Common.Int.{ℤ, ◌*ℤ◌, ◌+ℤ◌}
use strat_forge.Double.Lots.{lots, lots-IsOrdered}
use strat_forge.Broker.Order.{execute}
use strat_forge.Broker.Process.{process_orders, attempt, walk, start_pass, close_groups, handle}
use strat_forge.Broker.Process.Alive.{AllAlive, process_orders-alive}
use strat_forge.Broker.Process.Frozen.{IsInStep, process_orders_frozen}
use strat_forge.Broker.Process.Groups.{NoneOf, walk-NoneOf}
use strat_forge.Broker.Process.Trail.{Ratchets, attempt-Ratchets}
use strat_forge.Examples.Data.{
  new_broker, group_broker, first_of_group, second_of_group, bought, trailing, bar,
}
use strat_forge.Broker.Currency.{iso_number}
use strat_forge.Broker.State.{Broker, init, find_order}

process_orders-alive_example : AllAlive (process_orders (bar ∷ []) group_broker).pending_orders
process_orders-alive_example = process_orders-alive (bar ∷ []) group_broker

-- The first order is executed, and the second still pending.
abbrev half_done_broker : Broker ℤ
half_done_broker =
    let b = new_broker in
    record b {
      next_order_id = 3;
      all_orders = bought ∷ second_of_group ∷ [];
      pending_orders = second_of_group ∷ [];
    }

half_done_broker-IsInStep : IsInStep half_done_broker
unfolding handle find_order
half_done_broker-IsInStep = record {
  in_order = (omega arith, omega arith, tt);
  mirrored = (refl, tt);
}

process_orders_frozen_example :
    IsInStep (process_orders (bar ∷ []) half_done_broker)
    × (find_order 1 (process_orders (bar ∷ []) half_done_broker).all_orders ≡ some bought)
unfolding handle find_order
process_orders_frozen_example =
    process_orders_frozen (bar ∷ []) half_done_broker 1 bought half_done_broker-IsInStep refl refl

walk-NoneOf_example :
    NoneOf 7
      (close_groups
        (walk (bar ∷ []) 2 0 (start_pass group_broker)).filled_oco_groups
        (walk (bar ∷ []) 2 0 (start_pass group_broker)).still_pending
        (walk (bar ∷ []) 2 0 (start_pass group_broker)).broker).pending_orders
unfolding iso_number execute init handle ◌+ℤ◌ ◌*ℤ◌
walk-NoneOf_example =
    walk-NoneOf (bar ∷ []) 1 0 (start_pass group_broker) first_of_group 7 refl refl refl refl refl
      refl refl

attempt-Ratchets_example : Ratchets trailing (attempt trailing bar new_broker).order bar
unfolding handle
attempt-Ratchets_example = attempt-Ratchets lots-IsOrdered trailing bar new_broker refl refl refl
