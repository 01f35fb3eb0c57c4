-- ===== src/Data/Interval/Grid.antt =====
-- Grids on a line of ticks: cells of one length, grids of grids, and weeks from Monday.
use native.Mathlib.Nat.{mul-le-mul_right}
use strat_forge.Common.{ℕ, ◌<◌, ◌≡◌, ap, arith, ◌∙◌}
use strat_forge.Common.Int.{ℤ, pos, ◌+ℤ◌, ◌-ℤ◌, ◌*ℤ◌, ◌≤ℤ◌, int_laws, +ℤ_parts}
use strat_forge.Double.Lots.{lots}
use strat_forge.Data.Resampler.{floor_div}
use strat_forge.Data.Interval.Floors.{scale_parts, floor_bounds, floor_unique, one_more}

-- Cells that follow one another without gap: cell k runs from `start k` to before `start (k + 1)`,
-- and `bucket t` is the cell of t.
pub record IsGrid (bucket start : ℤ → ℤ) : Type 0 where
  pub opens : (t : ℤ) → start (bucket t) ≤ℤ t
  pub closes : (t : ℤ) → (t +ℤ pos 1) ≤ℤ start (bucket t +ℤ pos 1)
  pub exact : (k : ℤ) → bucket (start k) ≡ k

pub floor_exact : (k : ℤ) (n : ℕ) → 0 < n → floor_div (k *ℤ pos n) n ≡ k
floor_exact k n h =
    floor_unique (k *ℤ pos n) k n h (omega arith)
      (omega (arith, one_more k n, +ℤ_parts (k *ℤ pos n) (pos 1)))

pub floor-IsGrid : (n : ℕ) → 0 < n → IsGrid (λ t. floor_div t n) (λ k. k *ℤ pos n)
floor-IsGrid n h = record {
  opens = λ t. (floor_bounds t n h).0;
  closes = λ t. (floor_bounds t n h).1;
  exact = λ k. floor_exact k n h;
}

scale_le : (a b : ℤ) (n : ℕ) → a ≤ℤ b → a *ℤ pos n ≤ℤ b *ℤ pos n
scale_le a b n h = omega (arith, scale_parts a n, scale_parts b n, mul-le-mul_right n h)

-- A grid whose cells are made of n ticks each.
pub scaled-IsGrid :
    (n : ℕ) (bucket start : ℤ → ℤ)
    → 0 < n
    → IsGrid bucket start
    → IsGrid (λ t. bucket (floor_div t n)) (λ k. start k *ℤ pos n)
scaled-IsGrid n bucket start h g = record {
  opens = λ t.
      let x = floor_div t n in
      omega (arith, scale_le (start (bucket x)) x n (g.opens x), (floor_bounds t n h).0);
  closes = λ t.
      let x = floor_div t n in
      omega (
        arith,
        scale_le (x +ℤ pos 1) (start (bucket x +ℤ pos 1)) n (g.closes x),
        (floor_bounds t n h).1,
      );
  exact = λ k. ap bucket (floor_exact (start k) n h) ∙ g.exact k;
}

pub week-IsGrid : IsGrid (λ day. floor_div (day +ℤ pos 3) 7) (λ k. (k *ℤ pos 7) -ℤ pos 3)
week-IsGrid = record {
  opens = λ t. omega (int_laws, floor_bounds (t +ℤ pos 3) 7 (omega arith));
  closes = λ t. omega (int_laws, floor_bounds (t +ℤ pos 3) 7 (omega arith));
  exact = λ k.
      floor_unique (((k *ℤ pos 7) -ℤ pos 3) +ℤ pos 3) k 7 (omega arith) (omega int_laws)
        (omega int_laws);
}
