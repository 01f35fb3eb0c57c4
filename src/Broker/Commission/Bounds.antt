-- ===== src/Broker/Commission/Bounds.antt =====
-- Bounds on the commission schemes, for ordered doubles.
use strat_forge.Common.{◌⊎◌, inl, inr, Bool-cases}
use strat_forge.Double.{Double, ◌≼◌, ◌≺◌, ◌⊗◌, IsOrdered, abs}
use strat_forge.Double.Order.{le_fmax_right, fmin_le_right, le_fmin, le_of_not_lt}
use strat_forge.Broker.Commission.{
  CommissionInfo, TieredCommission, IbCommission, calculate, calculate_tiered, calculate_ib,
}

module _ {W : Type 0} ⦃d : Double W⦄ (laws : IsOrdered W) where
  le-calculate : (c : CommissionInfo W) (size price : W) → c.min_commission ≼ calculate c size price
  unfolding calculate
  le-calculate c size price = le_fmax_right laws _ _

  le-calculate_tiered :
      (t : TieredCommission W) (size price : W) → t.min_commission ≼ calculate_tiered t size price
  unfolding calculate_tiered
  le-calculate_tiered t size price = le_fmax_right laws _ _

  calculate_ib-le_cap :
      (b : IbCommission W) (size price : W)
      → calculate_ib b size price ≼ (abs size ⊗ price ⊗ b.max_pct_of_value)
  unfolding calculate_ib
  calculate_ib-le_cap b size price = fmin_le_right laws _ _

  min_or_cap :
      (b : IbCommission W) (size price : W)
      → ((abs size ⊗ price ⊗ b.max_pct_of_value) ≺ b.min_per_order)
        ⊎ (b.min_per_order ≼ calculate_ib b size price)
  unfolding calculate_ib
  min_or_cap b size price =
      elim (Bool-cases (d.lt (abs size ⊗ price ⊗ b.max_pct_of_value) b.min_per_order)) [
        | inl low ↦ inl low
        | inr high ↦ inr (le_fmin laws _ _ _ (le_fmax_right laws _ _) (le_of_not_lt laws _ _ high))
      ]

  -- For doubles in order: no plain or tiered scheme charges less than its minimum; the scheme with
  -- a cap never charges more than the cap, and its minimum holds wherever the cap allows it.
  pub commission_bounds :
      (c : CommissionInfo W) (t : TieredCommission W) (b : IbCommission W) (size price : W)
      → let cap = abs size ⊗ price ⊗ b.max_pct_of_value in
        (c.min_commission ≼ calculate c size price)
        × (t.min_commission ≼ calculate_tiered t size price)
        × (calculate_ib b size price ≼ cap)
        × ((cap ≺ b.min_per_order) ⊎ (b.min_per_order ≼ calculate_ib b size price))
  commission_bounds c t b size price = (
    le-calculate c size price,
    le-calculate_tiered t size price,
    calculate_ib-le_cap b size price,
    min_or_cap b size price,
  )
