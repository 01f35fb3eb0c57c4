-- ===== src/Examples/Warmups.antt =====
-- Two requirements of a strategy on two feeds.
use strat_forge.Common.{List, [], ◌∷◌, ◌≡◌, refl, arith}
use strat_forge.Common.Throws.{returns}
use strat_forge.Common.{ℕ}
use strat_forge.Engine.Warmup.{
  IndicatorHistoryRequirement, new_periods, minimum_period, set_minimum_period,
  apply_indicator_history_requirements,
}
use strat_forge.Engine.Warmup.Applied.{Raises, apply-Raises}

abbrev needs : List IndicatorHistoryRequirement
needs = record { feed_index = 1; bars = 20 } ∷ record { feed_index = 0; bars = 5 } ∷ []

apply-Raises_example :
    (ps : List ℕ) × (apply_indicator_history_requirements 2 needs new_periods ≡ returns ps)
    × Raises needs new_periods ps
apply-Raises_example =
    apply-Raises 2 needs new_periods ((omega arith, omega arith), ((omega arith, omega arith), tt))

-- Setting the period of one feed gives the feeds before it one of 1.
ones_between : minimum_period 1 (set_minimum_period 3 5 new_periods) ≡ 1
unfolding minimum_period set_minimum_period
ones_between = refl
