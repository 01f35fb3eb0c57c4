-- ===== src/Broker/Commission.antt =====
-- include/stratforge/broker/commission.hpp: the cost of a fill.
pub mod Bounds
pub mod Uniform
use strat_forge.Common.{
  ℕ, Bool, true, false, ◌&&◌, not, List, [], ◌∷◌, Option, none, some, if◌then◌else◌,
}
use strat_forge.Double.{Double, ◌⊕◌, ◌⊖◌, ◌⊗◌, nought, abs, fmin, fmax}

pub data CommissionType : Type 0 where
  percentage fixed per_share : CommissionType

pub record CommissionInfo (W : Type 0) : Type 0 where
  pub type : CommissionType
  pub commission : W
  pub min_commission : W

pub record Tier (W : Type 0) : Type 0 where
  pub threshold : W
  pub rate : W

pub record TieredCommission (W : Type 0) : Type 0 where
  pub tiers : List (Tier W)
  pub tier_type : CommissionType
  pub min_commission : W

pub record IbCommission (W : Type 0) : Type 0 where
  pub per_share : W
  pub min_per_order : W
  pub max_pct_of_value : W

module _ {W : Type 0} ⦃d : Double W⦄ where
  by_type : CommissionType → W → W → W → W
  by_type CommissionType.percentage rate abs_size price = abs_size ⊗ price ⊗ rate
  by_type CommissionType.fixed rate abs_size price = rate
  by_type CommissionType.per_share rate abs_size price = abs_size ⊗ rate

  unfoldable pub calculate : CommissionInfo W → W → W → W
  unfolding by_type abs fmax
  calculate c size price = fmax (by_type c.type c.commission (abs size) price) c.min_commission

  -- The charge of one tier, and what is left of the volume before the tier's share is taken off.
  tier_charge : CommissionType → W → W → W → W → W × W
  tier_charge CommissionType.per_share rate applicable price remaining =
      (applicable ⊗ rate, remaining)
  tier_charge CommissionType.percentage rate applicable price remaining =
      (applicable ⊗ price ⊗ rate, remaining)
  tier_charge CommissionType.fixed rate applicable price remaining = (rate, nought)

  -- The loop over the tiers: the commission so far and the volume that is left.
  tier_loop : CommissionType → W → List (Tier W) → W → W → W → W × W
  tier_loop t price [] prev comm remaining = (comm, remaining)
  tier_loop t price (tier ∷ tiers) prev comm remaining =
      let applicable = fmin remaining (tier.threshold ⊖ prev) in
      let (charge, left) = tier_charge t tier.rate applicable price remaining in
      let rest = tier_loop t price tiers tier.threshold (comm ⊕ charge) (left ⊖ applicable) in
      if d.le applicable nought
      then (comm, remaining)
      else if d.le (left ⊖ applicable) nought
      then (comm ⊕ charge, left ⊖ applicable)
      else rest

  last_rate : List (Tier W) → Option W
  last_rate [] = none
  last_rate (t ∷ []) = some t.rate
  last_rate (t ∷ u ∷ ts) = last_rate (u ∷ ts)

  excess_charge : CommissionType → W → W → W → W
  excess_charge CommissionType.per_share rate remaining price = remaining ⊗ rate
  excess_charge CommissionType.percentage rate remaining price = remaining ⊗ price ⊗ rate
  excess_charge CommissionType.fixed rate remaining price = nought

  unfoldable pub calculate_tiered : TieredCommission W → W → W → W
  unfolding tier_loop tier_charge last_rate excess_charge abs fmin fmax
  calculate_tiered c size price =
      let (comm, remaining) = tier_loop c.tier_type price c.tiers nought nought (abs size) in
      let total : W = elim (last_rate c.tiers) [
        | none ↦ comm
        | some rate ↦
            if d.lt nought remaining
            then comm ⊕ excess_charge c.tier_type rate remaining price
            else comm
      ] in
      fmax total c.min_commission

  unfoldable pub calculate_ib : IbCommission W → W → W → W
  unfolding abs fmin fmax
  calculate_ib c size price =
      fmin (fmax (abs size ⊗ c.per_share) c.min_per_order) (abs size ⊗ price ⊗ c.max_pct_of_value)
