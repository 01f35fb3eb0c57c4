-- ===== src/Examples/Ledgers.antt =====
-- Fills of trades and positions, the life of an order, and commissions.
use strat_forge.Common.{[], ◌∷◌, ◌≡◌, refl, none, true, inl}
use strat_forge.Common.Int.{ℤ, pos, negsuc, ◌+ℤ◌, ◌-ℤ◌}
use strat_forge.Double.{◌⊕◌, ◌⊖◌, ◌⊗◌}
use strat_forge.Double.Lots.{lots, lots-IsExact}
use strat_forge.Broker.Commission.{CommissionType, Tier, TieredCommission, IbCommission}
use strat_forge.Broker.Trade.{Trade, grows}
use strat_forge.Broker.Trade.Granular.{lots-IsGranular}
use strat_forge.Broker.Trade.Update.{equity, equity-update}
use strat_forge.Broker.Position.{Position, is_tiny}
use strat_forge.Broker.State.{Broker}
use strat_forge.Broker.TradeBook.{FillInfo, blank, update_trades}
use strat_forge.Broker.TradeBook.Ledger.{total}
use strat_forge.Broker.TradeBook.Adds.{Adds, update_trades-Adds}
use strat_forge.Examples.Data.{new_broker}

abbrev half_sold : FillInfo ℤ
half_sold = record {
  data_index = 0;
  old_size = pos 4;
  fill_size = negsuc 1;
  fill_price = pos 12;
  comm = pos 1;
  bar_index = 6;
  bar_dt = pos 9;
  candidate_id = 0;
}

-- A trade of 4 at 10.
abbrev long_trade : Trade ℤ
long_trade =
    let t = blank 1 0 0 in
    record t { size = pos 4; price = pos 10; entry_price = pos 10; value = pos 40; isopen = true }

abbrev holding : Broker ℤ
holding = let b = new_broker in record b { open_trades = (long_trade, pos 4) ∷ [] }

update_trades-Adds_example :
    Adds 0 (negsuc 1) ((long_trade, pos 4) ∷ []) (update_trades half_sold holding).open_trades
unfolding total ◌+ℤ◌
update_trades-Adds_example =
    update_trades-Adds lots-IsExact lots-IsGranular half_sold holding (inl refl, tt) refl

equity-update_example :
    equity
      (strat_forge.Broker.Trade.update long_trade (negsuc 5) (pos 12) (pos 1) 6 (pos 9))
      (pos 20)
    ≡ equity long_trade (pos 20) ⊕ (negsuc 5 ⊗ (pos 20 ⊖ pos 12))
unfolding is_tiny ◌-ℤ◌ grows ◌+ℤ◌
equity-update_example =
    equity-update lots-IsExact lots-IsGranular long_trade (negsuc 5) (pos 12) (pos 1) 6 (pos 9)
      (pos 20) refl (inl refl)

-- A holding of 4 at 10.
abbrev pub long_position : Position ℤ
long_position = record {
  instrument = none;
  data_index = 0;
  size = pos 4;
  avg_price = pos 10;
  price = pos 10;
  price_orig = pos 10;
  upopened = pos 4;
  upclosed = pos 0;
}

abbrev small_tier : Tier ℤ
small_tier = record { threshold = pos 5; rate = pos 2 }

abbrev large_tier : Tier ℤ
large_tier = record { threshold = pos 8; rate = pos 2 }

abbrev two_tiers : TieredCommission ℤ
two_tiers = record {
  tiers = small_tier ∷ large_tier ∷ [];
  tier_type = CommissionType.percentage;
  min_commission = pos 1;
}

abbrev capped : IbCommission ℤ
capped = record { per_share = pos 1; min_per_order = pos 5; max_pct_of_value = pos 1 }
