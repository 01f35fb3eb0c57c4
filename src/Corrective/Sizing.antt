-- ===== src/Corrective/Sizing.antt =====
-- include/stratforge/corrective/pop_sizing_policy.hpp: how a calibrated probability of profit gates
-- or scales the size of an order. A `float` is widened to a `double`, which is exact, so both are
-- the one type here.
pub mod Monotone
use strat_forge.Common.{Bool, if◌then◌else◌}
use strat_forge.Double.{Double, ◌⊗◌, nought, fmin, clamp}

pub data SizingPolicy : Type 0 where
  gate sizing hybrid : SizingPolicy

pub data GateVerdict : Type 0 where
  pass reject collect_only disabled : GateVerdict

pub record SizingDecision (W : Type 0) : Type 0 where
  pub verdict : GateVerdict
  pub final_size : W

pub record PopSizingPolicy (W : Type 0) : Type 0 where
  pub mode : SizingPolicy
  pub threshold : W
  pub exponent : W

module _ {W : Type 0} ⦃d : Double W⦄ where
  -- The constructor; `tenth` is the literal 0.1f.
  unfoldable pub new_policy : W → SizingPolicy → W → W → PopSizingPolicy W
  unfolding clamp
  new_policy tenth mode threshold exponent = record {
    mode = mode;
    threshold = threshold;
    exponent = clamp exponent tenth (d.lit 5);
  }

  -- `pow` is `std::pow`.
  unfoldable pub apply_gate : PopSizingPolicy W → W → W → SizingDecision W
  apply_gate p prob proposed =
      if d.lt prob p.threshold
      then record { verdict = GateVerdict.reject; final_size = nought }
      else record { verdict = GateVerdict.pass; final_size = proposed }

  abbrev pub scale : (W → W → W) → PopSizingPolicy W → W → W
  scale pow p prob = pow (clamp prob nought (d.lit 1)) p.exponent

  unfoldable pub apply_sizing : (W → W → W) → PopSizingPolicy W → W → W → SizingDecision W
  unfolding clamp fmin
  apply_sizing pow p prob proposed = record {
    verdict = GateVerdict.pass;
    final_size = fmin (proposed ⊗ scale pow p prob) proposed;
  }

  unfoldable pub apply_hybrid : (W → W → W) → PopSizingPolicy W → W → W → SizingDecision W
  unfolding apply_sizing
  apply_hybrid pow p prob proposed =
      if d.lt prob p.threshold
      then record { verdict = GateVerdict.reject; final_size = nought }
      else apply_sizing pow p prob proposed

  abbrev by_mode : SizingPolicy → (W → W → W) → PopSizingPolicy W → W → W → SizingDecision W
  by_mode SizingPolicy.gate pow p prob proposed = apply_gate p prob proposed
  by_mode SizingPolicy.sizing pow p prob proposed = apply_sizing pow p prob proposed
  by_mode SizingPolicy.hybrid pow p prob proposed = apply_hybrid pow p prob proposed

  unfoldable pub apply : (W → W → W) → PopSizingPolicy W → W → W → SizingDecision W
  unfolding apply_gate apply_sizing apply_hybrid
  apply pow p prob proposed = by_mode p.mode pow p prob proposed
