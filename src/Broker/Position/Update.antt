-- ===== src/Broker/Position/Update.antt =====
-- What a fill does to a position.
use strat_forge.Common.{false, ◌≡◌, arith, ◌∙◌, ◌⊎◌}
use strat_forge.Double.{Double, ◌⊕◌, nought, IsExact}
use strat_forge.Double.Ring.{add_cancel', zero_add}
use strat_forge.Broker.Position.{
  Position, update, opened_closed, average_price, average_base, is_flat,
}

module _ {W : Type 0} ⦃d : Double W⦄ where
  module _ (laws : IsExact W) where
    open laws use {add_assoc, add_comm, add_zero}

    sum-cross : (old fill : W) → (old ⊕ fill) ⊕ d.neg old ≡ fill
    sum-cross old fill = add_comm (old ⊕ fill) (d.neg old) ∙ add_cancel' laws old fill

    opened_closed-sum :
        (old fill : W) → let (up, down) = opened_closed old fill (old ⊕ fill) in up ⊕ down ≡ fill
    unfolding opened_closed
    opened_closed-sum old fill =
        ground (arith, add_zero fill, zero_add laws fill, sum-cross old fill)

    -- In exact arithmetic the opened and the closed part of a fill add up to the fill, on every
    -- branch: opening, adding, reducing, closing and reversing.
    pub opened-add-closed :
        (p : Position W) (fill fill_price : W)
        → (update p fill fill_price).upopened ⊕ (update p fill fill_price).upclosed ≡ fill
    unfolding update
    opened-add-closed p fill fill_price = ground (arith, opened_closed-sum p.size fill)

  -- The two average prices agree, and a flat position holds exactly nothing, at no price.
  pub record IsValid (p : Position W) : Type 0 where
    pub one_price : p.avg_price ≡ p.price
    pub flat_empty : (is_flat p ≡ false) ⊎ ((p.size ≡ nought) × (p.avg_price ≡ nought))

  average_price-eq-base :
      (p : Position W) (size fill fill_price : W)
      → p.avg_price ≡ p.price
      → average_price p size fill fill_price ≡ average_base p size fill fill_price
  unfolding average_price average_base
  average_price-eq-base p size fill fill_price h = ground arith

  -- When the two average prices of a position agree and a flat position holds exactly nothing at
  -- no price, it is so after every fill, also one that overshoots nought or leaves a rounding
  -- residue.
  pub update-IsValid :
      (p : Position W) (fill fill_price : W) → IsValid p → IsValid (update p fill fill_price)
  unfolding update is_flat
  update-IsValid p fill fill_price v =
      ground (arith, average_price-eq-base p (p.size ⊕ fill) fill fill_price v.one_price)
