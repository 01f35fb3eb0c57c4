-- ===== src/Broker/Fill/Effect.antt =====
-- What an attempt of `try_fill_order` of include/stratforge/broker/broker.hpp makes of an order: the
-- price it is executed at.
use strat_forge.Common.{◌≡◌, refl, ap, sym, arith, true, false, some, Option-cases, inl, inr, ◌⊎◌}
use strat_forge.Double.{Double, IsOrdered}
use strat_forge.Broker.Currency.{DateTime}
use strat_forge.Broker.Order.{Order, is_alive, is_completed, reject, to_margin, execute}
use strat_forge.Broker.State.{Broker, Feed}
use strat_forge.Broker.Fill.{
  Trigger, trigger, final_price, fill_at, try_fill_order, open_slippage, bar_time,
}
use strat_forge.Broker.Fill.Prices.{
  IsBar, InBar, WithinLimit, by_type-InBar, final_price-InBar, by_type-kept,
}

module _ {W : Type 0} ⦃d : Double W⦄ where
  fill_at-price :
      (b : Broker W) (o : Order W) (price : W) (at_time : DateTime)
      → is_alive o ≡ true
      → is_completed (fill_at b o price at_time).1.status ≡ true
      → (fill_at b o price at_time).1.executed_price ≡ price
  unfolding fill_at to_margin execute
  fill_at-price b o price at_time live h = ground arith

  pub trigger-cases :
      (t : Trigger W)
      → (t ≡ Trigger.refused) ⊎ ((t ≡ Trigger.waits) ⊎ ((raw : W) × (t ≡ Trigger.fills raw)))
  trigger-cases Trigger.refused = inl refl
  trigger-cases Trigger.waits = inr (inl refl)
  trigger-cases (Trigger.fills raw) = inr (inr (raw, refl))

  -- An order that an attempt completes had a trigger price, and was filled at what slippage made
  -- of it.
  abbrev FilledAt : Broker W → Order W → Feed W → W → Type 0
  FilledAt b o f price =
      (raw : W) × (trigger o f ≡ Trigger.fills raw) × (final_price b.config o raw f ≡ some price)

  try_fill-price :
      (b : Broker W) (o : Order W) (f : Feed W)
      → is_alive o ≡ true
      → is_completed (try_fill_order b o f).1.status ≡ true
      → FilledAt b o f (try_fill_order b o f).1.executed_price
  unfolding try_fill_order reject
  try_fill-price b o f live h = elim (trigger-cases (trigger o f)) [
    | inl e ↦ absurd (ground arith)
    | inr (inl e) ↦ absurd (ground arith)
    | inr (inr (raw, e)) ↦ elim (Option-cases (final_price b.config o raw f)) [
      | inl e' ↦ absurd (ground arith)
      | inr (price, e') ↦ (
        raw,
        e,
        rw e' (ap some (sym (ground (arith, fill_at-price b o price (bar_time f) live)))),
      )
    ]
  ]

  -- For doubles in order, a bar that opens within its range, and a broker that does not let
  -- slippage leave the range: when an attempt completes a live order, of any type, side and
  -- slippage, the order's executed price lies within the bar's low and high.
  pub try_fill-InBar :
      (laws : IsOrdered W) (b : Broker W) (o : Order W) (f : Feed W)
      → IsBar f
      → b.config.slip_out ≡ false
      → is_alive o ≡ true
      → is_completed (try_fill_order b o f).1.status ≡ true
      → InBar (try_fill_order b o f).1.executed_price f
  unfolding trigger
  try_fill-InBar laws b o f bar inside live h =
      let (raw, e, e') = try_fill-price b o f live h in
      final_price-InBar laws b.config o raw (try_fill_order b o f).1.executed_price f bar
        (by_type-InBar laws o.type o raw f bar e) inside e'

  -- For doubles in order, and a broker without slippage on limit orders: when an attempt completes
  -- a live order that has a limit (a limit order, a stop-limit order or a trailing stop-limit
  -- order), a purchase is executed at the limit or below, and a sale at the limit or above.
  pub try_fill-WithinLimit :
      (laws : IsOrdered W) (b : Broker W) (o : Order W) (f : Feed W)
      → open_slippage o.type ≡ false
      → b.config.slip_limit ≡ false
      → is_alive o ≡ true
      → is_completed (try_fill_order b o f).1.status ≡ true
      → WithinLimit o (try_fill_order b o f).1.executed_price
  unfolding final_price trigger
  try_fill-WithinLimit laws b o f limited still live h =
      let (raw, e, e') = try_fill-price b o f live h in
      ground (arith, by_type-kept laws o.type o raw f limited e)
