-- ===== src/Examples/Values.antt =====
-- The worth of a portfolio, live fills, and sizing.
use strat_forge.Common.{ℕ, zero, suc, ◌*◌, ◌≤◌, [], ◌∷◌, ◌≡◌, refl, true, arith}
use strat_forge.Common.Int.{ℤ, pos, negsuc, ◌*ℤ◌, ◌+ℤ◌, ◌-ℤ◌}
use strat_forge.Double.{◌≼◌, ◌⊕◌, ◌⊖◌, ◌⊗◌, nought}
use strat_forge.Double.Lots.{lots, lots-IsExact, lots-IsOrdered}
use strat_forge.Broker.Order.{Order, OrderType, OrderSide, OrderStatus, execute}
use strat_forge.Broker.Trade.{Trade}
use strat_forge.Broker.Trade.Granular.{lots-IsGranular}
use strat_forge.Broker.State.{position, find_position, init}
use strat_forge.Broker.TradeBook.{blank}
use strat_forge.Broker.TradeBook.Ledger.{total}
use strat_forge.Broker.Fill.{try_fill_order, signed_size}
use strat_forge.Broker.Fill.Balance.{IsBalanced}
use strat_forge.Broker.Value.{portfolio_value}
use strat_forge.Broker.Value.Fills.{try_fill-value}
use strat_forge.Broker.Live.{LiveBroker, record_live_fill, is_terminal}
use strat_forge.Broker.Live.Balance.{record_live_fill-IsBalanced, record_live_fill-again}
use strat_forge.Corrective.Sizing.{SizingPolicy, PopSizingPolicy, new_policy, apply}
use strat_forge.Corrective.Sizing.Monotone.{IsPower, apply_monotone}
use strat_forge.Examples.Data.{new_broker, limit_buy, order_of, bar}
use strat_forge.Broker.Currency.{iso_number}
use strat_forge.Broker.Process.{handle}

try_fill-value_example :
    portfolio_value (try_fill_order new_broker limit_buy bar).0 (bar ∷ [])
    ≡ portfolio_value new_broker (bar ∷ [])
      ⊕ ((signed_size limit_buy
            ⊗ (pos 11 ⊖ (try_fill_order new_broker limit_buy bar).1.executed_price))
          ⊖ (try_fill_order new_broker limit_buy bar).1.commission)
unfolding iso_number execute init handle ◌+ℤ◌ ◌*ℤ◌
try_fill-value_example =
    try_fill-value lots-IsExact lots-IsGranular new_broker limit_buy bar (bar ∷ []) tt refl refl
      refl refl

abbrev live_order : Order ℤ
live_order = order_of OrderType.market OrderSide.buy OrderStatus.accepted (pos 3) (pos 0)

abbrev live_broker : LiveBroker ℤ
live_broker =
    let b = new_broker in
    record {
      broker = record b {
        next_order_id = 2;
        all_orders = live_order ∷ [];
        pending_orders = live_order ∷ [];
      };
      connected = true;
      live_symbols = [];
      live_trade_snapshots = [];
      requests = [];
    }

-- One of three shares is filled.
abbrev partial_trade : Trade ℤ
partial_trade =
    let t = blank 1 0 0 in
    record t { size = pos 1; entry_price = pos 10; price = pos 10; commission = pos 1 }

live_broker-IsBalanced : IsBalanced live_broker.broker
unfolding total position find_position init
live_broker-IsBalanced = record { tidy = tt; sums = λ i. refl }

record_live_fill-IsBalanced_example : IsBalanced (record_live_fill partial_trade live_broker).broker
record_live_fill-IsBalanced_example =
    record_live_fill-IsBalanced lots-IsExact lots-IsGranular partial_trade live_broker
      live_broker-IsBalanced

record_live_fill-again_example :
    (record_live_fill partial_trade (record_live_fill partial_trade live_broker)).broker
    ≡ (record_live_fill partial_trade live_broker).broker
unfolding handle ◌-ℤ◌ is_terminal
record_live_fill-again_example =
    record_live_fill-again lots-IsExact partial_trade live_broker live_order refl refl refl

-- The powers of a whole number, with 1 for a negative exponent, which no policy has.
abbrev power_of : ℕ → ℕ → ℕ
power_of x zero = 1
power_of x (suc n) = x * power_of x n

abbrev whole_power : ℤ → ℤ → ℤ
whole_power (pos x) (pos n) = pos (power_of x n)
whole_power (negsuc x) (pos n) = pos 0
whole_power x (negsuc n) = pos 1

times_rises : (a b c d : ℕ) → a ≤ b → c ≤ d → a * c ≤ b * d
times_rises zero b c d h k = omega arith
times_rises (suc a) zero c d h k = absurd (omega (arith, h))
times_rises (suc a) (suc b) c d h k = omega (arith, times_rises a b c d (omega (arith, h)) k, k)

power_of_rises : (n x y : ℕ) → x ≤ y → power_of x n ≤ power_of y n
power_of_rises zero x y h = omega arith
power_of_rises (suc n) x y h =
    times_rises x y (power_of x n) (power_of y n) h (power_of_rises n x y h)

whole_power-IsPower : IsPower whole_power
whole_power-IsPower = record { pow_nonneg = nonneg; pow_rises = rises }
  where
    nonneg : (x e : ℤ) → nought ≼ e → nought ≼ x → nought ≼ whole_power x e
    nonneg (pos x) (pos n) h k = ground arith
    nonneg (negsuc x) (pos n) h k = absurd (ground (arith, k))
    nonneg x (negsuc n) h k = absurd (ground (arith, h))

    rises : (x y e : ℤ) → nought ≼ e → nought ≼ x → x ≼ y → whole_power x e ≼ whole_power y e
    rises (pos x) (pos y) (pos n) h k l = ground (arith, power_of_rises n x y (ground (arith, l)))
    rises (negsuc x) y (pos n) h k l = absurd (ground (arith, k))
    rises (pos x) (negsuc y) (pos n) h k l = absurd (ground (arith, l))
    rises x y (negsuc n) h k l = absurd (ground (arith, h))

abbrev hybrid_policy : PopSizingPolicy ℤ
unfolding new_policy
hybrid_policy = new_policy (pos 1) SizingPolicy.hybrid (pos 1) (pos 9)

apply_monotone_example :
    (nought ≼ (apply whole_power hybrid_policy (pos 0) (pos 8)).final_size)
    × ((apply whole_power hybrid_policy (pos 0) (pos 8)).final_size
        ≼ (apply whole_power hybrid_policy (pos 1) (pos 8)).final_size)
    × ((apply whole_power hybrid_policy (pos 1) (pos 8)).final_size ≼ pos 8)
unfolding hybrid_policy
apply_monotone_example =
    apply_monotone lots-IsExact lots-IsOrdered refl whole_power whole_power-IsPower (pos 1)
      SizingPolicy.hybrid (pos 1) (pos 9) (pos 0) (pos 1) (pos 8) refl refl refl refl
