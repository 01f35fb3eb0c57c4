-- ===== src/Engine/Warmup.antt =====
-- How many bars a strategy asks of each feed before it starts: the minimum periods of
-- include/stratforge/strategy/strategy.hpp.
pub mod Applied
use Prim.Native.String.{String}
use strat_forge.Common.{
  ℕ, zero, suc, ◌+◌, Bool, true, false, List, [], ◌∷◌, if◌then◌else◌, ltb, leb, ◌==◌,
}
use strat_forge.Common.Throws.{Throws, returns, throws}

pub record IndicatorHistoryRequirement : Type 0 where
  pub feed_index : ℕ
  pub bars : ℕ

-- `min_periods_` of a new strategy.
abbrev pub new_periods : List ℕ
new_periods = 1 ∷ []

unfoldable pub minimum_period : ℕ → List ℕ → ℕ
minimum_period k [] = 0
minimum_period zero (p ∷ ps) = p
minimum_period (suc k) (p ∷ ps) = minimum_period k ps

-- The list grows by ones up to the feed.
unfoldable pub set_minimum_period : ℕ → ℕ → List ℕ → List ℕ
set_minimum_period zero bars [] = bars ∷ []
set_minimum_period zero bars (p ∷ ps) = bars ∷ ps
set_minimum_period (suc k) bars [] = 1 ∷ set_minimum_period k bars []
set_minimum_period (suc k) bars (p ∷ ps) = p ∷ set_minimum_period k bars ps

unfoldable pub require_minimum_period : ℕ → ℕ → List ℕ → List ℕ
unfolding minimum_period set_minimum_period
require_minimum_period k bars ps =
    if ltb (minimum_period k ps) bars then set_minimum_period k bars ps else ps

-- `data_count` is the number of feeds.
unfoldable pub apply_indicator_history_requirements :
    ℕ → List IndicatorHistoryRequirement → List ℕ → Throws (List ℕ)
unfolding require_minimum_period
apply_indicator_history_requirements data_count [] ps = returns ps
apply_indicator_history_requirements data_count (r ∷ rs) ps =
    let later =
      apply_indicator_history_requirements data_count rs
        (require_minimum_period r.feed_index r.bars ps) in
    if leb data_count r.feed_index
    then throws "indicator history requirement references an unavailable feed"
    else if r.bars == 0
    then throws "indicator history requirement must be positive"
    else later
