-- ===== src/Corrective/Sizing/Monotone.antt =====
-- A sizing policy is bounded and monotonic.
use strat_forge.Common.{◌≡◌, arith, true, false, ◌⊎◌}
use strat_forge.Double.{Double, ◌⊗◌, ◌⊖◌, ◌≼◌, nought, fmin, clamp, IsOrdered, IsExact}
use strat_forge.Double.Order.{
  fmin_le_left, fmin_le_right, le_fmin, clamp_bounds, le_of_not_lt, le_of_lt,
}
use strat_forge.Double.Ring.{sub_nonneg, mul_sub, zero_add, sub_add_cancel}
use strat_forge.Corrective.Sizing.{
  PopSizingPolicy, SizingPolicy, new_policy, apply, apply_gate, apply_sizing, apply_hybrid, scale,
}

module _ {W : Type 0} ⦃d : Double W⦄ where
  -- What `std::pow` is documented to do for an exponent that is not negative: from a base of 0 on, it
  -- is not negative and rises with the base.
  pub record IsPower (pow : W → W → W) : Type 0 where
    pub pow_nonneg : (x e : W) → nought ≼ e → nought ≼ x → nought ≼ pow x e
    pub pow_rises : (x y e : W) → nought ≼ e → nought ≼ x → x ≼ y → pow x e ≼ pow y e

  module _ (exact : IsExact W) (ordered : IsOrdered W) (unit : nought ≼ d.lit 1) where
    open ordered use {le_refl, le_trans}

    clamp_rises : (x y lo hi : W) → lo ≼ hi → x ≼ y → clamp x lo hi ≼ clamp y lo hi
    unfolding clamp
    clamp_rises x y lo hi h k = ground (
      arith,
      le_refl lo,
      le_refl hi,
      le_of_not_lt ordered hi x,
      le_of_not_lt ordered y lo,
      le_of_lt ordered y lo,
      le_of_lt ordered hi x,
      le_trans hi x y,
      le_trans hi y lo,
      le_trans x y lo,
    )

    mul_rises : (c x y : W) → nought ≼ c → x ≼ y → (c ⊗ x) ≼ (c ⊗ y)
    mul_rises c x y h k =
        let gap : nought ≼ ((c ⊗ y) ⊖ (c ⊗ x)) =
          rw (mul_sub exact c y x) at (exact.mul_nonneg c (y ⊖ x) h (sub_nonneg exact x y k)) in
        rw (zero_add exact (c ⊗ x), sub_add_cancel exact (c ⊗ x) (c ⊗ y)) at
          (exact.le_add nought ((c ⊗ y) ⊖ (c ⊗ x)) (c ⊗ x) gap)

    fmin_rises : (a b c : W) → a ≼ b → fmin a c ≼ fmin b c
    fmin_rises a b c h =
        le_fmin ordered (fmin a c) b c (le_trans (fmin a c) a b (fmin_le_left ordered a c) h)
          (fmin_le_right ordered a c)

    scale_rises :
        (pow : W → W → W) (power : IsPower pow) (p : PopSizingPolicy W) (x y : W)
        → nought ≼ p.exponent
        → x ≼ y
        → (nought ≼ scale pow p x) × (scale pow p x ≼ scale pow p y)
    scale_rises pow power p x y e h =
        let low = (clamp_bounds ordered x nought (d.lit 1) unit).0 in
        (
          power.pow_nonneg (clamp x nought (d.lit 1)) p.exponent e low,
          power.pow_rises (clamp x nought (d.lit 1)) (clamp y nought (d.lit 1)) p.exponent e low
              (clamp_rises x y nought (d.lit 1) unit h),
        )

    sizing_rises :
        (pow : W → W → W) (power : IsPower pow) (p : PopSizingPolicy W) (x y proposed : W)
        → nought ≼ p.exponent
        → nought ≼ proposed
        → x ≼ y
        → (nought ≼ (apply_sizing pow p x proposed).final_size)
          × ((apply_sizing pow p x proposed).final_size
              ≼ (apply_sizing pow p y proposed).final_size)
    unfolding apply_sizing
    sizing_rises pow power p x y proposed e h k =
        let (low, rises) = scale_rises pow power p x y e k in
        (
          le_fmin ordered nought (proposed ⊗ scale pow p x) proposed
              (exact.mul_nonneg proposed (scale pow p x) h low) h,
          fmin_rises (proposed ⊗ scale pow p x) (proposed ⊗ scale pow p y) proposed
              (mul_rises proposed (scale pow p x) (scale pow p y) h rises),
        )

    sizing_bound :
        (pow : W → W → W) (p : PopSizingPolicy W) (x proposed : W)
        → (apply_sizing pow p x proposed).final_size ≼ proposed
    unfolding apply_sizing
    sizing_bound pow p x proposed = fmin_le_right ordered (proposed ⊗ scale pow p x) proposed

    threshold_rises :
        (p : PopSizingPolicy W) (x y : W)
        → x ≼ y
        → (d.lt x p.threshold ≡ true) ⊎ (d.lt y p.threshold ≡ false)
    threshold_rises p x y h = ground (
      arith,
      ordered.lt-eq-not-le x p.threshold,
      ordered.lt-eq-not-le y p.threshold,
      le_trans p.threshold x y,
    )

    policy_monotone :
        (pow : W → W → W) (power : IsPower pow) (p : PopSizingPolicy W) (x y proposed : W)
        → nought ≼ p.exponent
        → nought ≼ proposed
        → x ≼ y
        → (nought ≼ (apply pow p x proposed).final_size)
          × ((apply pow p x proposed).final_size ≼ (apply pow p y proposed).final_size)
          × ((apply pow p y proposed).final_size ≼ proposed)
    unfolding apply apply_gate apply_hybrid
    policy_monotone pow power p x y proposed e h k = ground (
      arith,
      le_refl nought,
      le_refl proposed,
      threshold_rises p x y k,
      sizing_rises pow power p x y proposed e h k,
      sizing_rises pow power p y y proposed e h (le_refl y),
      sizing_bound pow p y proposed,
    )

    -- In exact ordered arithmetic, with the literal 0.1f between 0 and 5 and a power function that, for
    -- an exponent that is not negative, is not negative and rises with a base from 0 on: take a policy
    -- that the constructor makes, of any mode, threshold and exponent. For a proposed size that is not
    -- negative, the final size lies between 0 and the proposed size, and a higher probability never
    -- gets a smaller size.
    pub apply_monotone :
        (pow : W → W → W) (power : IsPower pow) (tenth : W) (mode : SizingPolicy)
        (threshold exponent x y proposed : W)
        → nought ≼ tenth
        → tenth ≼ d.lit 5
        → nought ≼ proposed
        → x ≼ y
        → let p = new_policy tenth mode threshold exponent in
          (nought ≼ (apply pow p x proposed).final_size)
          × ((apply pow p x proposed).final_size ≼ (apply pow p y proposed).final_size)
          × ((apply pow p y proposed).final_size ≼ proposed)
    unfolding new_policy
    apply_monotone pow power tenth mode threshold exponent x y proposed low high h k =
        let held = (clamp_bounds ordered exponent tenth (d.lit 5) high).0 in
        policy_monotone pow power (new_policy tenth mode threshold exponent) x y proposed
          (le_trans nought tenth (clamp exponent tenth (d.lit 5)) low held) h k
