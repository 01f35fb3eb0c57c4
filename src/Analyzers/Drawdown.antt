-- ===== src/Analyzers/Drawdown.antt =====
-- The drawdown analyzer, include/stratforge/analyzers/drawdown.hpp. `reserve` on the vector of
-- values has no effect that can be read.
pub mod Worst
use strat_forge.Common.{ℕ, suc, max, List, [], ◌∷◌, ◌++◌, if◌then◌else◌}
use strat_forge.Double.{Double, ◌⊖◌, ◌⊗◌, ◌⊘◌, nought, fmax}
use strat_forge.Broker.State.{Broker, Feed}
use strat_forge.Broker.Value.{portfolio_value}

-- `Analysis::Max`; the other members of `Analysis` have the same shape.
pub record Reading (W : Type 0) : Type 0 where
  pub len : ℕ
  pub drawdown : W
  pub moneydown : W

pub record Drawdown (W : Type 0) : Type 0 where
  pub peak : W
  pub now : Reading W
  pub worst : Reading W
  pub drawdown_values : List W

module _ {W : Type 0} ⦃d : Double W⦄ where
  abbrev pub no_reading : Reading W
  no_reading = record { len = 0; drawdown = nought; moneydown = nought }

  unfoldable pub start : Drawdown W
  start = record { peak = nought; now = no_reading; worst = no_reading; drawdown_values = [] }

  -- `next` after its first line, for the value of the portfolio.
  unfoldable pub observe : W → Drawdown W → Drawdown W
  unfolding fmax
  observe value s =
      let peak = if d.lt s.peak value then value else s.peak in
      let moneydown = peak ⊖ value in
      let drawdown = if d.lt nought peak then moneydown ⊘ peak ⊗ d.lit 100 else nought in
      let len = if d.lt nought drawdown then suc s.now.len else 0 in
      record {
        peak = peak;
        now = record { len = len; drawdown = drawdown; moneydown = moneydown };
        worst = record {
          len = max s.worst.len len;
          drawdown = fmax s.worst.drawdown drawdown;
          moneydown = fmax s.worst.moneydown moneydown;
        };
        drawdown_values = s.drawdown_values ++ (moneydown ∷ []);
      }

  unfoldable pub next : Broker W → List (Feed W) → Drawdown W → Drawdown W
  unfolding observe portfolio_value
  next b feeds = observe (portfolio_value b feeds)

  -- The calls of a run, from `start` on.
  unfoldable pub watch : List (Broker W × List (Feed W)) → Drawdown W → Drawdown W
  unfolding next
  watch [] s = s
  watch ((b, feeds) ∷ bars) s = watch bars (next b feeds s)

  abbrev pub max_drawdown : Drawdown W → W
  max_drawdown s = s.worst.moneydown
