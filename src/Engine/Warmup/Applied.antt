-- ===== src/Engine/Warmup/Applied.antt =====
-- The minimum periods after a strategy's requirements are applied.
use strat_forge.Common.{
  ℕ, zero, suc, ◌≤◌, ◌<◌, false, List, [], ◌∷◌, ◌≡◌, refl, inl, inr, arith, All, Bool-cases, ltb,
  leb, ◌==◌,
}
use strat_forge.Common.Throws.{returns}
use strat_forge.Engine.Warmup.{
  IndicatorHistoryRequirement, minimum_period, set_minimum_period, require_minimum_period,
  apply_indicator_history_requirements,
}

-- A requirement of a feed that is there, and of some bars.
abbrev pub IsAcceptable : ℕ → IndicatorHistoryRequirement → Type 0
IsAcceptable data_count r = (r.feed_index < data_count) × (0 < r.bars)

-- No feed asks for less, and every requirement is met.
pub record Raises (rs : List IndicatorHistoryRequirement) (ps ps' : List ℕ) : Type 0 where
  pub no_less : (k : ℕ) → minimum_period k ps ≤ minimum_period k ps'
  pub met : All (λ r. r.bars ≤ minimum_period r.feed_index ps') rs

set-same : (k bars : ℕ) (ps : List ℕ) → minimum_period k (set_minimum_period k bars ps) ≡ bars
unfolding minimum_period set_minimum_period
set-same zero bars [] = refl
set-same zero bars (p ∷ ps) = refl
set-same (suc k) bars [] = set-same k bars []
set-same (suc k) bars (p ∷ ps) = set-same k bars ps

set-no_less :
    (k bars j : ℕ) (ps : List ℕ)
    → minimum_period k ps ≤ bars
    → minimum_period j ps ≤ minimum_period j (set_minimum_period k bars ps)
unfolding minimum_period set_minimum_period
set-no_less k bars j [] h = omega arith
set-no_less zero bars zero (p ∷ ps) h = h
set-no_less zero bars (suc j) (p ∷ ps) h = omega arith
set-no_less (suc k) bars zero (p ∷ ps) h = omega arith
set-no_less (suc k) bars (suc j) (p ∷ ps) h = set-no_less k bars j ps h

require-Raises :
    (r : IndicatorHistoryRequirement) (ps : List ℕ)
    → Raises (r ∷ []) ps (require_minimum_period r.feed_index r.bars ps)
unfolding require_minimum_period
require-Raises r ps = elim (Bool-cases (ltb (minimum_period r.feed_index ps) r.bars)) [
  | inl below ↦ rw below (record {
    no_less = λ k. set-no_less r.feed_index r.bars k ps (ground (arith, below));
    met = (omega (arith, set-same r.feed_index r.bars ps), tt);
  })
  | inr enough ↦
      rw enough (record { no_less = λ k. omega arith; met = (ground (arith, enough), tt) })
]

-- If every requirement is of a feed that is there and of some bars, all are applied: no feed asks for
-- less than before, and each asks for what its requirements say.
pub apply-Raises :
    (data_count : ℕ) (rs : List IndicatorHistoryRequirement) (ps : List ℕ)
    → All (IsAcceptable data_count) rs
    → (ps' : List ℕ) × (apply_indicator_history_requirements data_count rs ps ≡ returns ps')
      × Raises rs ps ps'
unfolding apply_indicator_history_requirements
apply-Raises n [] ps h = (ps, refl, record { no_less = λ k. omega arith; met = tt })
apply-Raises n (r ∷ rs) ps h =
    let ps1 = require_minimum_period r.feed_index r.bars ps in
    let first = require-Raises r ps in
    let (ps', done, rest) = apply-Raises n rs ps1 h.1 in
    let there : leb n r.feed_index ≡ false = ground (arith, h.0.0) in
    let some_bars : (r.bars == 0) ≡ false = ground (arith, h.0.1) in
    (
      ps',
      rw (there, some_bars) done,
      record {
        no_less = λ k. omega (arith, first.no_less k, rest.no_less k);
        met = (omega (arith, first.met.0, rest.no_less r.feed_index), rest.met);
      },
    )
