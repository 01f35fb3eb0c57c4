-- ===== src/Broker/Trade/Granular.antt =====
-- Sizes that are whole multiples of a unit coarser than 1e-10: the tests against that literal then
-- tell nought from the rest.
use strat_forge.Common.{true, not, ◌≡◌, arith}
use strat_forge.Common.Int.{ℤ, ◌-ℤ◌}
use strat_forge.Double.{Double, nought}
use strat_forge.Double.Lots.{lots}
use strat_forge.Broker.Position.{is_tiny}
use strat_forge.Broker.Trade.{is_sized}

pub record IsGranular (W : Type 0) ⦃d : Double W⦄ : Type 0 where
  pub zero_of_tiny : (x : W) → is_tiny x ≡ true → x ≡ nought
  pub tiny_zero : is_tiny (d.lit 0) ≡ true
  pub sized-eq-not-tiny : (x : W) → is_sized x ≡ not (is_tiny x)

pub lots-IsGranular : IsGranular ℤ
unfolding is_tiny is_sized ◌-ℤ◌
lots-IsGranular = record {
  zero_of_tiny = λ x h. ground arith;
  tiny_zero = ground arith;
  sized-eq-not-tiny = λ x. ground arith;
}
