-- ===== src/Broker/Position.antt =====
-- include/stratforge/broker/position.hpp: the holding of one feed, updated by each fill.
pub mod Update
use strat_forge.Common.{ℕ, Bool, ◌&&◌, ◌||◌, Option, none, some, if◌then◌else◌}
use strat_forge.Double.{Double, ◌⊕◌, ◌⊖◌, ◌⊗◌, ◌⊘◌, nought, abs}
use strat_forge.Broker.Instrument.{Instrument}

pub record Position (W : Type 0) : Type 0 where
  pub instrument : Option (Instrument W)
  pub data_index : ℕ
  pub size : W
  pub avg_price : W
  pub price : W
  pub price_orig : W
  pub upopened : W
  pub upclosed : W

module _ {W : Type 0} ⦃d : Double W⦄ where
  -- |x| < 1e-10
  unfoldable pub is_tiny : W → Bool
  unfolding abs
  is_tiny x = d.lt (abs x) d.tiny

  -- `upopened` and `upclosed` for the size before, the fill and the size after.
  unfoldable pub opened_closed : W → W → W → W × W
  unfolding is_tiny
  opened_closed old_size fill new_size =
      if is_tiny old_size
      then (fill, nought)
      else if d.lt nought old_size
      then if d.lt nought fill
        then (fill, nought)
        else if d.le nought new_size
        then (nought, fill)
        else (new_size, d.neg old_size)
      else if d.lt fill nought
      then (fill, nought)
      else if d.le new_size nought
      then (nought, fill)
      else (new_size, d.neg old_size)

  -- Both sizes on the same side of nought.
  abbrev pub same_side : W → W → Bool
  same_side x y = (d.lt nought x && d.lt nought y) || (d.lt x nought && d.lt y nought)

  abbrev pub crossed : W → W → Bool
  crossed x y = (d.lt nought x && d.lt y nought) || (d.lt x nought && d.lt nought y)

  -- The average price after a fill that leaves a holding.
  unfoldable pub average_price : Position W → W → W → W → W
  unfolding is_tiny
  average_price p new_size fill fill_price =
      if is_tiny p.size
      then fill_price
      else if same_side p.size fill
      then ((p.price ⊗ p.size) ⊕ (fill ⊗ fill_price)) ⊘ new_size
      else if crossed p.size new_size
      then fill_price
      else p.avg_price

  unfoldable pub average_base : Position W → W → W → W → W
  unfolding is_tiny
  average_base p new_size fill fill_price =
      if is_tiny p.size
      then fill_price
      else if same_side p.size fill
      then ((p.price ⊗ p.size) ⊕ (fill ⊗ fill_price)) ⊘ new_size
      else if crossed p.size new_size
      then fill_price
      else p.price

  unfoldable pub update : Position W → W → W → Position W
  unfolding opened_closed average_price average_base is_tiny
  update p fill fill_price =
      let new_size = p.size ⊕ fill in
      let (up, down) = opened_closed p.size fill new_size in
      if is_tiny new_size
      then record p {
        price_orig = p.price;
        upopened = up;
        upclosed = down;
        size = nought;
        avg_price = nought;
        price = nought;
      }
      else record p {
        price_orig = p.price;
        upopened = up;
        upclosed = down;
        size = new_size;
        avg_price = average_price p new_size fill fill_price;
        price = average_base p new_size fill fill_price;
      }

  unfoldable pub unrealized_pnl : Position W → W → W
  unrealized_pnl p mark_px = elim p.instrument [
    | none ↦ p.size ⊗ (mark_px ⊖ p.avg_price)
    | some i ↦ i.mark_to_market p.size p.avg_price mark_px
  ]

  unfoldable pub is_flat : Position W → Bool
  unfolding is_tiny
  is_flat p = is_tiny p.size

  unfoldable pub is_long : Position W → Bool
  is_long p = d.lt d.tiny p.size

  unfoldable pub is_short : Position W → Bool
  is_short p = d.lt p.size (d.neg d.tiny)
