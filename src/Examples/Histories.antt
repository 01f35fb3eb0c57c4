-- ===== src/Examples/Histories.antt =====
-- Histories of a broker.
use strat_forge.Common.{◌++◌, ◌≡◌, refl, none, some, arith}
use strat_forge.Common.Int.{pos, ◌*ℤ◌, ◌+ℤ◌}
use strat_forge.Double.Lots.{lots, lots-IsExact}
use strat_forge.Broker.Currency.{Currency, iso_number}
use strat_forge.Broker.Trade.Granular.{lots-IsGranular}
use strat_forge.Broker.State.{init, find_order, position}
use strat_forge.Broker.TradeBook.Ledger.{total}
use strat_forge.Broker.Submit.Sound.{IsSound}
use strat_forge.Broker.History.{run, AllLinked, act}
use strat_forge.Broker.History.Sound.{run_frozen, run-IsSound}
use strat_forge.Broker.History.Balance.{run-balanced}
use strat_forge.Examples.Data.{purchase, aftermath, one_each, bought}
use strat_forge.Broker.Order.{execute}
use strat_forge.Broker.TradeBook.{update_trades}
use strat_forge.Broker.Submit.{submit_order}
use strat_forge.Broker.Process.{
  book, close_groups, handle, process_orders, step_at, tend_children, walk,
}

purchase-Linked : AllLinked purchase (init Currency.usd (pos 1000) none one_each)
unfolding init
purchase-Linked = (omega arith, (tt, tt))

aftermath-Linked : AllLinked aftermath (run purchase (init Currency.usd (pos 1000) none one_each))
aftermath-Linked = (tt, (tt, (tt, (tt, (tt, tt)))))

purchase-fills :
    find_order 1 (run purchase (init Currency.usd (pos 1000) none one_each)).all_orders
    ≡ some bought
unfolding iso_number execute init update_trades submit_order handle tend_children book step_at walk
    close_groups process_orders act run ◌+ℤ◌ ◌*ℤ◌
purchase-fills = refl

run-IsSound_example : IsSound (run purchase (init Currency.usd (pos 1000) none one_each))
run-IsSound_example = run-IsSound Currency.usd (pos 1000) none one_each purchase purchase-Linked

run_frozen_example :
    find_order 1
      (run (purchase ++ aftermath) (init Currency.usd (pos 1000) none one_each)).all_orders
    ≡ some bought
run_frozen_example =
    run_frozen Currency.usd (pos 1000) none one_each purchase aftermath 1 bought purchase-Linked
      aftermath-Linked purchase-fills refl

run-balanced_example :
    total 0 (run (purchase ++ aftermath) (init Currency.usd (pos 1000) none one_each)).open_trades
    ≡ (position (run (purchase ++ aftermath) (init Currency.usd (pos 1000) none one_each)) 0).size
run-balanced_example =
    run-balanced lots-IsExact lots-IsGranular Currency.usd (pos 1000) none one_each
      (purchase ++ aftermath) 0
