-- ===== src/Examples/Drawdowns.antt =====
-- A holding that rises and falls, under the drawdown analyzer.
use strat_forge.Common.{List, [], ◌∷◌, ◌≡◌, refl}
use strat_forge.Common.Int.{ℤ, pos, ◌+ℤ◌, ◌-ℤ◌, ◌*ℤ◌}
use strat_forge.Double.{nought}
use strat_forge.Double.Lots.{lots, lots-IsExact, lots-IsOrdered}
use strat_forge.Broker.Currency.{iso_number}
use strat_forge.Broker.Order.{execute}
use strat_forge.Broker.State.{Broker, Feed, init}
use strat_forge.Broker.TradeBook.{update_trades}
use strat_forge.Broker.Position.{update}
use strat_forge.Broker.Fill.{try_fill_order}
use strat_forge.Broker.Process.{handle}
use strat_forge.Analyzers.Drawdown.{start, watch, max_drawdown}
use strat_forge.Analyzers.Drawdown.Worst.{worths, IsWorstFall, max_drawdown-IsWorstFall}
use strat_forge.Examples.Data.{new_broker, limit_buy, bar, late_bar}

abbrev holder : Broker ℤ
unfolding iso_number execute init handle ◌+ℤ◌ ◌*ℤ◌
holder = (try_fill_order new_broker limit_buy bar).0

abbrev holding : List (Broker ℤ × List (Feed ℤ))
holding =
    (new_broker, bar ∷ []) ∷ (holder, bar ∷ []) ∷ (holder, late_bar ∷ []) ∷ (holder, bar ∷ []) ∷ []

-- Three shares fall by 5 from their highest value.
holding_falls : max_drawdown (watch holding start) ≡ pos 15
unfolding watch iso_number execute init handle ◌+ℤ◌ ◌*ℤ◌ start ◌-ℤ◌ update_trades update
holding_falls = refl

max_drawdown-IsWorstFall_example :
    IsWorstFall (max_drawdown (watch holding start)) (nought ∷ worths holding)
max_drawdown-IsWorstFall_example = max_drawdown-IsWorstFall lots-IsExact lots-IsOrdered holding
