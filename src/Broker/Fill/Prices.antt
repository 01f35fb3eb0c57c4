-- ===== src/Broker/Fill/Prices.antt =====
-- At what price `try_fill_order` of include/stratforge/broker/broker.hpp fills an order.
use strat_forge.Common.{◌≡◌, refl, arith, false, some, Option-cases, inl, inr, ◌⊎◌}
use strat_forge.Double.{Double, ◌≼◌, IsOrdered, fmin, fmax}
use strat_forge.Double.Order.{
  le_fmin, fmin_le_left, fmin_le_right, le_fmax_left, le_fmax_right, clamp_bounds,
}
use strat_forge.Broker.Order.{Order, OrderType, OrderSide}
use strat_forge.Broker.State.{Config, Feed}
use strat_forge.Broker.Fill.{
  Trigger, at_limit, at_stop, at_stop_limit, by_type, apply_slippage, final_price, slipped_price,
  open_slippage,
}

module _ {W : Type 0} ⦃d : Double W⦄ where
  -- The bar opens within its range.
  abbrev pub IsBar : Feed W → Type 0
  IsBar f = (f.low ≼ f.open_price) × (f.open_price ≼ f.high)

  abbrev pub InBar : W → Feed W → Type 0
  InBar price f = (f.low ≼ price) × (price ≼ f.high)

  -- The order's limit is kept.
  abbrev pub WithinLimit : Order W → W → Type 0
  WithinLimit o price =
      ((o.side ≡ OrderSide.buy) × (price ≼ o.price))
      ⊎ ((o.side ≡ OrderSide.sell) × (o.price ≼ price))

  module _ (laws : IsOrdered W) where
    open laws use {le_refl, le_trans}

    fmax_le : (m a b : W) → a ≼ m → b ≼ m → fmax a b ≼ m
    unfolding fmax
    fmax_le m a b h k = ground arith

    fmin-InBar : (x : W) (f : Feed W) → IsBar f → f.low ≼ x → InBar (fmin x f.open_price) f
    fmin-InBar x f bar h = (
      le_fmin laws f.low x f.open_price h bar.0,
      le_trans (fmin x f.open_price) f.open_price f.high (fmin_le_right laws x f.open_price) bar.1,
    )

    fmax-InBar : (x : W) (f : Feed W) → IsBar f → x ≼ f.high → InBar (fmax x f.open_price) f
    fmax-InBar x f bar h = (
      le_trans f.low f.open_price (fmax x f.open_price) bar.0 (le_fmax_right laws x f.open_price),
      fmax_le f.high x f.open_price h bar.1,
    )

    at_limit-InBar :
        (side : OrderSide) (price raw : W) (f : Feed W)
        → IsBar f
        → at_limit side price f ≡ Trigger.fills raw
        → InBar raw f
    unfolding at_limit
    at_limit-InBar OrderSide.buy price raw f bar h = ground (arith, fmin-InBar price f bar)
    at_limit-InBar OrderSide.sell price raw f bar h = ground (arith, fmax-InBar price f bar)

    at_stop-InBar :
        (side : OrderSide) (stop raw : W) (f : Feed W)
        → IsBar f
        → at_stop side stop f ≡ Trigger.fills raw
        → InBar raw f
    unfolding at_stop
    at_stop-InBar OrderSide.buy stop raw f bar h = ground (arith, fmax-InBar stop f bar)
    at_stop-InBar OrderSide.sell stop raw f bar h = ground (arith, fmin-InBar stop f bar)

    at_stop_limit-InBar :
        (side : OrderSide) (stop price raw : W) (f : Feed W)
        → IsBar f
        → at_stop_limit side stop price f ≡ Trigger.fills raw
        → InBar raw f
    unfolding at_stop_limit
    at_stop_limit-InBar OrderSide.buy stop price raw f bar h =
        ground (arith, at_limit-InBar OrderSide.buy price raw f bar)
    at_stop_limit-InBar OrderSide.sell stop price raw f bar h =
        ground (arith, at_limit-InBar OrderSide.sell price raw f bar)

    pub by_type-InBar :
        (t : OrderType) (o : Order W) (raw : W) (f : Feed W)
        → IsBar f
        → by_type t o f ≡ Trigger.fills raw
        → InBar raw f
    unfolding by_type
    by_type-InBar OrderType.market o raw f bar h = ground arith
    by_type-InBar OrderType.limit o raw f bar h = at_limit-InBar o.side o.price raw f bar h
    by_type-InBar OrderType.stop o raw f bar h = elim (Option-cases o.stop_price) [
      | inl e ↦ absurd (ground arith)
      | inr (stop, e) ↦ ground (arith, at_stop-InBar o.side stop raw f bar)
    ]
    by_type-InBar OrderType.stop_limit o raw f bar h = elim (Option-cases o.stop_price) [
      | inl e ↦ absurd (ground arith)
      | inr (stop, e) ↦ ground (arith, at_stop_limit-InBar o.side stop o.price raw f bar)
    ]
    by_type-InBar OrderType.stop_trail o raw f bar h =
        ground (arith, at_stop-InBar o.side o.trail_stop_price raw f bar)
    by_type-InBar OrderType.stop_trail_limit o raw f bar h =
        ground (arith, at_stop_limit-InBar o.side o.trail_stop_price o.price raw f bar)

    apply_slippage-InBar :
        (c : Config W) (raw price : W) (side : OrderSide) (f : Feed W)
        → f.low ≼ f.high
        → c.slip_out ≡ false
        → apply_slippage c raw side f ≡ some price
        → InBar price f
    unfolding apply_slippage
    apply_slippage-InBar c raw price side f bar closed h =
        ground (arith, clamp_bounds laws (slipped_price c raw side) f.low f.high bar)

    pub final_price-InBar :
        (c : Config W) (o : Order W) (raw price : W) (f : Feed W)
        → IsBar f
        → InBar raw f
        → c.slip_out ≡ false
        → final_price c o raw f ≡ some price
        → InBar price f
    unfolding final_price
    final_price-InBar c o raw price f bar inside closed h = ground (
      arith,
      apply_slippage-InBar c raw price o.side f (le_trans f.low f.open_price f.high bar.0 bar.1)
          closed,
    )

    at_limit-kept :
        (side : OrderSide) (price raw : W) (f : Feed W)
        → at_limit side price f ≡ Trigger.fills raw
        → ((side ≡ OrderSide.buy) × (raw ≼ price)) ⊎ ((side ≡ OrderSide.sell) × (price ≼ raw))
    unfolding at_limit
    at_limit-kept OrderSide.buy price raw f h =
        inl (refl, ground (arith, fmin_le_left laws price f.open_price))
    at_limit-kept OrderSide.sell price raw f h =
        inr (refl, ground (arith, le_fmax_left laws price f.open_price))

    at_stop_limit-kept :
        (side : OrderSide) (stop price raw : W) (f : Feed W)
        → at_stop_limit side stop price f ≡ Trigger.fills raw
        → ((side ≡ OrderSide.buy) × (raw ≼ price)) ⊎ ((side ≡ OrderSide.sell) × (price ≼ raw))
    unfolding at_stop_limit
    at_stop_limit-kept OrderSide.buy stop price raw f h =
        ground (arith, at_limit-kept OrderSide.buy price raw f)
    at_stop_limit-kept OrderSide.sell stop price raw f h =
        ground (arith, at_limit-kept OrderSide.sell price raw f)

    pub by_type-kept :
        (t : OrderType) (o : Order W) (raw : W) (f : Feed W)
        → open_slippage t ≡ false
        → by_type t o f ≡ Trigger.fills raw
        → WithinLimit o raw
    unfolding by_type
    by_type-kept OrderType.market o raw f limited h = absurd (ground arith)
    by_type-kept OrderType.stop o raw f limited h = absurd (ground arith)
    by_type-kept OrderType.stop_trail o raw f limited h = absurd (ground arith)
    by_type-kept OrderType.limit o raw f limited h = at_limit-kept o.side o.price raw f h
    by_type-kept OrderType.stop_limit o raw f limited h = elim (Option-cases o.stop_price) [
      | inl e ↦ absurd (ground arith)
      | inr (stop, e) ↦ ground (arith, at_stop_limit-kept o.side stop o.price raw f)
    ]
    by_type-kept OrderType.stop_trail_limit o raw f limited h =
        ground (arith, at_stop_limit-kept o.side o.trail_stop_price o.price raw f)
