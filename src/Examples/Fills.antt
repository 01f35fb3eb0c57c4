-- ===== src/Examples/Fills.antt =====
-- Attempts to fill an order.
use strat_forge.Common.{◌≡◌, refl}
use strat_forge.Common.Int.{◌*ℤ◌, ◌+ℤ◌}
use strat_forge.Double.{◌≼◌, nought}
use strat_forge.Double.Lots.{lots, lots-IsExact, lots-IsOrdered}
use strat_forge.Broker.Currency.{Currency, iso_number}
use strat_forge.Broker.Order.{execute}
use strat_forge.Broker.Trade.Granular.{lots-IsGranular}
use strat_forge.Broker.State.{cash_in, position, find_position, init}
use strat_forge.Broker.TradeBook.Ledger.{total}
use strat_forge.Broker.Fill.{try_fill_order}
use strat_forge.Broker.Fill.Prices.{InBar}
use strat_forge.Broker.Fill.Effect.{try_fill-InBar}
use strat_forge.Broker.Fill.Cash.{paid, try_fill-paid, try_fill-solvent}
use strat_forge.Broker.Fill.Balance.{IsBalanced, try_fill-IsBalanced}
use strat_forge.Examples.Data.{new_broker, limit_buy, bar}
use strat_forge.Broker.Process.{handle}

try_fill-InBar_example : InBar (try_fill_order new_broker limit_buy bar).1.executed_price bar
unfolding iso_number execute init handle ◌+ℤ◌ ◌*ℤ◌
try_fill-InBar_example =
    try_fill-InBar lots-IsOrdered new_broker limit_buy bar (refl, refl) refl refl refl

try_fill-paid_example :
    cash_in Currency.usd (try_fill_order new_broker limit_buy bar).0.cash
    ≡ paid new_broker (try_fill_order new_broker limit_buy bar).1 Currency.usd
try_fill-paid_example = try_fill-paid new_broker limit_buy bar Currency.usd refl

try_fill-solvent_example :
    nought ≼ cash_in Currency.usd (try_fill_order new_broker limit_buy bar).0.cash
unfolding iso_number execute init handle ◌+ℤ◌ ◌*ℤ◌
try_fill-solvent_example =
    try_fill-solvent lots-IsExact lots-IsOrdered new_broker limit_buy bar refl refl refl refl

new_broker-IsBalanced : IsBalanced new_broker
unfolding total position find_position init
new_broker-IsBalanced = record { tidy = tt; sums = λ i. refl }

try_fill-IsBalanced_example : IsBalanced (try_fill_order new_broker limit_buy bar).0
try_fill-IsBalanced_example =
    try_fill-IsBalanced lots-IsExact lots-IsGranular new_broker limit_buy bar new_broker-IsBalanced
