-- ===== src/Examples/Submits.antt =====
-- A bracket that is submitted behind another order.
use strat_forge.Common.{arith, refl}
use strat_forge.Common.Int.{ℤ, pos}
use strat_forge.Double.Lots.{lots}
use strat_forge.Broker.Order.{OrderSide}
use strat_forge.Broker.State.{Broker, init}
use strat_forge.Broker.Submit.{bracket, submit_order_ext, ask_hook}
use strat_forge.Broker.Submit.Brackets.{Orders, bracket-Orders}
use strat_forge.Examples.Data.{new_broker, at_market}

abbrev waiting : Broker ℤ
unfolding submit_order_ext ask_hook init
waiting = (submit_order_ext OrderSide.buy (pos 3) at_market new_broker).0

bracket-Orders_example :
    Orders waiting OrderSide.buy (bracket OrderSide.buy (pos 2) (pos 16) (pos 8) 0 waiting)
unfolding submit_order_ext ask_hook init
bracket-Orders_example =
    bracket-Orders OrderSide.buy (pos 2) (pos 16) (pos 8) 0 waiting refl (omega arith)
      ((omega arith, omega arith), tt) ((omega arith, omega arith), tt)
