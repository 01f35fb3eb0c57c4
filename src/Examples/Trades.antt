-- ===== src/Examples/Trades.antt =====
-- Four closed trades: a win, two losses and a win.
use strat_forge.Common.{true, [], ◌∷◌, ◌≡◌, refl, ◌+◌}
use strat_forge.Common.Int.{ℤ, pos, negsuc, ◌+ℤ◌, ◌*ℤ◌}
use strat_forge.Double.Lots.{lots}
use strat_forge.Broker.State.{Broker, init}
use strat_forge.Broker.Trade.{Trade}
use strat_forge.Broker.TradeBook.{blank}
use strat_forge.Analyzers.Trades.{analyze, no_analysis, no_length, update_length_summary}
use strat_forge.Analyzers.Trades.Counts.{AllCounts, analyze-AllCounts}
use strat_forge.Analyzers.Trades.Streaks.{wins, losses, longest_run, analyze-longest_run}
use strat_forge.Examples.Data.{new_broker}

abbrev closed_with : ℤ → Trade ℤ × ℤ
closed_with net = (record (blank 1 0 0) { pnlcomm = net; islong = true }, pos 1)

abbrev traded : Broker ℤ
traded = record new_broker {
  closed_trades =
      closed_with (pos 4)
      ∷ closed_with (negsuc 0)
      ∷ closed_with (negsuc 2)
      ∷ closed_with (pos 7)
      ∷ [];
}

analyze-AllCounts_example :
    AllCounts traded.closed_trades no_analysis (analyze traded)
    × ((analyze traded).won.total + (analyze traded).lost.total ≡ (analyze traded).total_closed)
    × ((analyze traded).total_open + (analyze traded).total_closed ≡ (analyze traded).total_total)
analyze-AllCounts_example = analyze-AllCounts traded

analyze-longest_run_example :
    ((analyze traded).streak_won.longest ≡ longest_run (wins traded.closed_trades))
    × ((analyze traded).streak_lost.longest ≡ longest_run (losses traded.closed_trades))
analyze-longest_run_example = analyze-longest_run traded

two_lost : ((analyze traded).streak_lost.longest ≡ 2) × ((analyze traded).won.pnl.max ≡ pos 7)
unfolding analyze init ◌+ℤ◌ ◌*ℤ◌
two_lost = (refl, refl)

-- After a trade that lasts no bar, the shortest length is that of the next one.
forgotten :
    (update_length_summary {W = ℤ} 7
      (update_length_summary 0 (update_length_summary 5 no_length))).min
    ≡ 7
unfolding update_length_summary
forgotten = refl
