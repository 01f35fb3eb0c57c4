-- ===== src/Broker/Process/Trail.antt =====
-- A trailing stop of include/stratforge/broker/broker.hpp moves one way only.
use strat_forge.Common.{true, false, ◌≡◌, arith, ◌⊎◌}
use strat_forge.Double.{Double, ◌⊖◌, ◌⊕◌, ◌≼◌, nought, IsOrdered}
use strat_forge.Double.Order.{le_of_not_lt, le_of_lt}
use strat_forge.Broker.Order.{Order, OrderSide}
use strat_forge.Broker.State.{Broker, Feed}
use strat_forge.Broker.Process.{
  attempt, new_stop, moves_stop, update_trail_stop, is_trail, trail_distance,
}
use strat_forge.Broker.Process.Alive.{try_fill-waits}

module _ {W : Type 0} ⦃d : Double W⦄ where
  -- The stop of a sale has not sunk and is no farther below the high than the trail; that of a
  -- purchase mirrors it.
  abbrev pub Ratchets : Order W → Order W → Feed W → Type 0
  Ratchets o o' f =
      ((o.side ≡ OrderSide.sell)
        × (o.trail_stop_price ≼ o'.trail_stop_price)
        × ((f.high ⊖ trail_distance o f.high) ≼ o'.trail_stop_price))
      ⊎ ((o.side ≡ OrderSide.buy)
          × (o'.trail_stop_price ≼ o.trail_stop_price)
          × (o'.trail_stop_price ≼ (f.low ⊕ trail_distance o f.low)))

  update_trail_stop-Ratchets :
      (laws : IsOrdered W) (o : Order W) (f : Feed W) (b : Broker W)
      → d.eq o.trail_stop_price nought ≡ false
      → Ratchets o (update_trail_stop o f b).1 f
  unfolding update_trail_stop moves_stop new_stop
  update_trail_stop-Ratchets laws o f b h = ground (
    arith,
    laws.le_refl o.trail_stop_price,
    laws.le_refl (new_stop o f),
    le_of_lt laws o.trail_stop_price (new_stop o f),
    le_of_lt laws (new_stop o f) o.trail_stop_price,
    le_of_not_lt laws o.trail_stop_price (new_stop o f),
    le_of_not_lt laws (new_stop o f) o.trail_stop_price,
  )

  -- For doubles in order: when an attempt leaves a trailing order pending whose stop is set (not
  -- 0.0), the stop of a sale is at least what it was and at least the bar's high less the trail,
  -- and that of a purchase at most what it was and at most the bar's low plus the trail.
  pub attempt-Ratchets :
      (laws : IsOrdered W) (o : Order W) (f : Feed W) (b : Broker W)
      → is_trail o.type ≡ true
      → d.eq o.trail_stop_price nought ≡ false
      → (attempt o f b).stays ≡ true
      → Ratchets o (attempt o f b).order f
  unfolding attempt
  attempt-Ratchets laws o f b t h s =
      ground (arith, try_fill-waits b o f, update_trail_stop-Ratchets laws o f b h)
