-- ===== src/Examples/Lives.antt =====
-- A live engine with one order a second at most, and a strategy that buys at every price.
use strat_forge.Common.{ℕ, suc, true, false, none, some, List, [], ◌∷◌, ◌≡◌, refl, map}
use strat_forge.Common.Int.{ℤ, pos, ◌+ℤ◌, ◌*ℤ◌, ◌-ℤ◌}
use strat_forge.Double.Lots.{lots}
use strat_forge.Broker.Currency.{iso_number}
use strat_forge.Broker.Order.{OrderSide}
use strat_forge.Broker.State.{init}
use strat_forge.Broker.Live.{submit_live_order}
use strat_forge.Broker.TradeBook.{blank}
use strat_forge.Engine.Strategies.{Callback}
use strat_forge.Live.Risk.{LiveEngine, LiveRiskLimits}
use strat_forge.Live.Risk.Kept.{orders_of}
use strat_forge.Live.Risk.Rate.{IsPaced, passing, passing-IsPaced}
use strat_forge.Live.Engine.{LiveCall, LivePlan, LiveStrategy, Happening, happen, happen_all}
use strat_forge.Live.Engine.Latched.{happen_all-latched}
use strat_forge.Live.Engine.Muted.{IsMuted, happen_all-IsMuted}
use strat_forge.Examples.Data.{new_broker, at_market}
use strat_forge.Examples.Ledgers.{long_position}

abbrev limits : LiveRiskLimits ℤ
limits = record {
  max_abs_position = none;
  max_drawdown_percent = none;
  max_orders_per_second = some 1;
  heartbeat_timeout = none;
  flatten_on_breach = true;
  auto_reconnect = false;
  max_reconnect_attempts = 3;
}

abbrev stopped_engine : LiveEngine ℕ ℤ
stopped_engine = record {
  limits = limits;
  strategy = 0;
  live = record {
    broker = new_broker;
    connected = false;
    live_symbols = [];
    live_trade_snapshots = [];
    requests = [];
  };
  feeds = record { name = "BTC"; bars = [] } ∷ [];
  started = false;
  active = false;
  nextstart_fired = false;
  kill_switch_triggered = false;
  flattening = false;
  kill_switch_reason = "";
  peak_portfolio_value = pos 0;
  order_timestamps = [];
  last_market_data_time = pos 0;
  reconnect_attempts = 0;
  outbox = [];
  terminated = false;
}

abbrev buyer : LiveStrategy ℕ ℤ
buyer = record {
  minimum_period = λ s k. 1;
  callback = λ cb fs l s. elim cb [
    | Callback.nextstart ↦
        LivePlan.calls (LiveCall.submits OrderSide.buy (pos 3) at_market)
          (λ a l'. LivePlan.done (suc s))
    | Callback.next ↦
        LivePlan.calls (LiveCall.submits OrderSide.buy (pos 3) at_market)
          (λ a l'. LivePlan.done (suc s))
    | _ ↦ LivePlan.done s
  ];
}

abbrev price_at : ℕ → Happening buyer 1000
price_at now =
    Happening.prices (pos now) (pos now)
      (record { symbol = "BTC"; last_price = pos 10; last_size = pos 1 })

abbrev breach : List (Happening buyer 1000)
breach = Happening.starts (pos 0) ∷ price_at 10 ∷ price_at 20 ∷ []

abbrev breached : LiveEngine ℕ ℤ
breached = happen_all buyer 1000 breach stopped_engine

one_sent :
    (breached.kill_switch_reason ≡ "order rate limit exceeded")
    × (map (λ o. o.id) (orders_of breached.outbox) ≡ 1 ∷ [])
    × (breached.strategy ≡ 2)
unfolding happen_all init iso_number ◌-ℤ◌ ◌+ℤ◌ ◌*ℤ◌ submit_live_order
one_sent = (refl, refl, refl)

-- It stays with the engine when it is asked to connect again and is stopped.
abbrev aftermath : List (Happening buyer 1000)
aftermath = Happening.reconnects ∷ Happening.stops (pos 30) ∷ []

happen_all-latched_example :
    ((happen_all buyer 1000 aftermath breached).kill_switch_triggered ≡ true)
    × ((happen_all buyer 1000 aftermath breached).kill_switch_reason ≡ breached.kill_switch_reason)
unfolding happen_all init iso_number ◌-ℤ◌ ◌+ℤ◌ ◌*ℤ◌ submit_live_order
happen_all-latched_example = happen_all-latched buyer 1000 aftermath breached refl

breached-IsMuted : IsMuted breached
unfolding happen_all init iso_number ◌-ℤ◌ ◌+ℤ◌ ◌*ℤ◌ submit_live_order
breached-IsMuted = record { on = refl; idle = refl; max = 1; limited = refl }

happen_all-IsMuted_example :
    IsMuted (happen_all buyer 1000 (price_at 5000 ∷ price_at 9000 ∷ []) breached)
    × (orders_of (happen_all buyer 1000 (price_at 5000 ∷ price_at 9000 ∷ []) breached).outbox
        ≡ orders_of breached.outbox)
happen_all-IsMuted_example =
    happen_all-IsMuted buyer 1000 (price_at 5000 ∷ price_at 9000 ∷ []) breached (tt, (tt, tt))
      breached-IsMuted

-- A started engine with a position on each of two feeds.
abbrev two_held : LiveEngine ℕ ℤ
two_held = record stopped_engine {
  feeds = record { name = "BTC"; bars = [] } ∷ record { name = "ETH"; bars = [] } ∷ [];
  started = true;
  active = true;
  live = record stopped_engine.live {
    broker = record new_broker {
      positions = long_position ∷ record long_position { data_index = 1 } ∷ [];
    };
    connected = true;
    live_symbols = "BTC" ∷ "ETH" ∷ [];
  };
}

-- Stopping it sends two orders that close the first position.
closed_twice :
    map
      (λ o. o.data_index)
      (orders_of (happen buyer 1000 (Happening.stops (pos 30)) two_held).outbox)
    ≡ 0 ∷ 0 ∷ 1 ∷ []
unfolding happen init iso_number ◌-ℤ◌ ◌+ℤ◌ ◌*ℤ◌ submit_live_order
closed_twice = refl

-- A report while a position has no price yet ends the program.
ends_program : (happen buyer 1000 (Happening.fills (blank 9 0 0)) two_held).terminated ≡ true
unfolding happen ◌-ℤ◌ init iso_number
ends_program = refl

passing-IsPaced_example :
    IsPaced 1000 1 (passing 1000 (pos 10 ∷ pos 1500 ∷ pos 1600 ∷ []) stopped_engine)
passing-IsPaced_example =
    passing-IsPaced 1000 1 (pos 10) (pos 10 ∷ pos 1500 ∷ pos 1600 ∷ []) stopped_engine refl refl
      refl (refl, (refl, (refl, tt)))

two_pass : passing 1000 (pos 10 ∷ pos 1500 ∷ pos 1600 ∷ []) stopped_engine ≡ pos 10 ∷ pos 1500 ∷ []
unfolding happen ◌-ℤ◌
two_pass = refl
