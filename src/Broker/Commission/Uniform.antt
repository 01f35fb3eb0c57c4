-- ===== src/Broker/Commission/Uniform.antt =====
-- Tiers that share one rate cost the same as the plain scheme of that rate.
use strat_forge.Common.{
  List, [], ◌∷◌, ◌≡◌, refl, sym, arith, All, Bool-cases, inl, inr, ◌∙◌, ap, if◌then◌else◌, some,
}
use strat_forge.Double.{Double, ◌≼◌, ◌⊕◌, ◌⊖◌, ◌⊗◌, nought, IsOrdered, IsExact, abs, fmin, fmax}
use strat_forge.Double.Order.{fmin_le_left, le_of_lt, le_of_not_lt}
use strat_forge.Double.Ring.{zero_add, neg_nonneg, add_mul_sub, sub_nonneg}
use strat_forge.Broker.Commission.{
  CommissionType, Tier, calculate, calculate_tiered, tier_loop, tier_charge, last_rate,
  excess_charge, by_type,
}

module _ {W : Type 0} ⦃d : Double W⦄ (exact : IsExact W) (ordered : IsOrdered W) where
  open exact use {add_assoc, add_comm, add_zero, zero_mul}

  -- What is charged and the rate on what is left make up the rate on the whole.
  tier_loop-sum :
      (r price : W) (tiers : List (Tier W)) (prev comm left : W)
      → All (λ t. t.rate ≡ r) tiers
      → let out = tier_loop CommissionType.per_share price tiers prev comm left in
        out.0 ⊕ (out.1 ⊗ r) ≡ comm ⊕ (left ⊗ r)
  unfolding tier_loop tier_charge
  tier_loop-sum r price [] prev comm left h = refl
  tier_loop-sum r price (t ∷ ts) prev comm left h =
      let a = fmin left (t.threshold ⊖ prev) in
      ground (
        arith,
        add_mul_sub exact comm a left r,
        tier_loop-sum r price ts t.threshold (comm ⊕ (a ⊗ t.rate)) (left ⊖ a) h.1,
      )

  tier_loop-nonneg :
      (price : W) (tiers : List (Tier W)) (prev comm left : W)
      → d.lit 0 ≼ left
      → d.lit 0 ≼ (tier_loop CommissionType.per_share price tiers prev comm left).1
  unfolding tier_loop tier_charge
  tier_loop-nonneg price [] prev comm left h = h
  tier_loop-nonneg price (t ∷ ts) prev comm left h =
      let a = fmin left (t.threshold ⊖ prev) in
      let keeps = sub_nonneg exact a left (fmin_le_left ordered left (t.threshold ⊖ prev)) in
      ground
        (arith, keeps, tier_loop-nonneg price ts t.threshold (comm ⊕ (a ⊗ t.rate)) (left ⊖ a) keeps)

  last_rate-uniform :
      (r : W) (t : Tier W) (ts : List (Tier W))
      → All (λ u. u.rate ≡ r) (t ∷ ts)
      → last_rate (t ∷ ts) ≡ some r
  unfolding last_rate
  last_rate-uniform r t [] h = ap some h.0
  last_rate-uniform r t (u ∷ us) h = last_rate-uniform r u us h.1

  finish :
      (r comm left total : W)
      → d.lit 0 ≼ left
      → comm ⊕ (left ⊗ r) ≡ total
      → (if d.lt nought left then comm ⊕ (left ⊗ r) else comm) ≡ total
  finish r comm left total h e = elim (Bool-cases (d.lt nought left)) [
    | inl more ↦ rw more e
    | inr none_left ↦
        let left_zero : left ≡ d.lit 0 =
          exact.le_antisymm _ _ (le_of_not_lt ordered _ _ none_left) h in
        rw none_left (sym (add_zero comm) ∙ rw (← zero_mul r) (rw (← left_zero) e))
  ]

  abs_nonneg : (x : W) → d.lit 0 ≼ abs x
  unfolding abs
  abs_nonneg x =
      ground
        (arith, neg_nonneg exact x, le_of_lt ordered x (d.lit 0), le_of_not_lt ordered x (d.lit 0))

  -- In exact ordered arithmetic: tiers, at least one, that all charge the rate r per share cost
  -- what the plain scheme of r per share costs, however the thresholds stand, also out of order.
  pub calculate_tiered-uniform :
      (r m : W) (t : Tier W) (ts : List (Tier W)) (size price : W)
      → All (λ u. u.rate ≡ r) (t ∷ ts)
      → calculate_tiered
          (record { tiers = t ∷ ts; tier_type = CommissionType.per_share; min_commission = m })
          size
          price
        ≡ calculate
            (record { type = CommissionType.per_share; commission = r; min_commission = m })
            size
            price
  unfolding calculate_tiered calculate excess_charge by_type
  calculate_tiered-uniform r m t ts size price h =
      let out = tier_loop CommissionType.per_share price (t ∷ ts) nought nought (abs size) in
      rw (last_rate-uniform r t ts h) (
        ap (λ z. fmax z m)
          (finish r out.0 out.1 (abs size ⊗ r)
            (tier_loop-nonneg price (t ∷ ts) nought nought (abs size) (abs_nonneg size))
            (tier_loop-sum r price (t ∷ ts) nought nought (abs size) h
              ∙ zero_add exact (abs size ⊗ r))))
