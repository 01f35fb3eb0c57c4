-- ===== src/Data/Interval/Floors.antt =====
-- Division that rounds towards nought, and the correction that makes it round down.
use native.Mathlib.Nat.{mod-lt, div-add-mod'}
use strat_forge.Common.{
  ℕ, suc, ◌+◌, ◌*◌, ◌/◌, ◌%◌, ◌<◌, ◌≡◌, arith, inl, inr, ap, sym, refl, Bool, not, ◌&&◌, Bool-cases,
}
use strat_forge.Common.Int.{
  ℤ, pos, negsuc, pos_part, neg_part, ◌+ℤ◌, ◌-ℤ◌, ◌*ℤ◌, ◌≤ℤ◌, ltb_ℤ, eqb_ℤ, +ℤ_parts, -ℤ_parts,
  *ℤ_parts, eq_of_parts,
}
use strat_forge.Double.Lots.{quot}
use strat_forge.Data.Resampler.{floor_div}
use strat_forge.Data.Interval.{floor_bucket}

pub scale_parts :
    (z : ℤ) (n : ℕ)
    → pos_part (z *ℤ pos n) + neg_part z * n ≡ neg_part (z *ℤ pos n) + pos_part z * n
scale_parts z n = omega (arith, *ℤ_parts z (pos n))

pub suc_parts :
    (z : ℤ) (n : ℕ)
    → pos_part (z +ℤ pos 1) * n + neg_part z * n ≡ neg_part (z +ℤ pos 1) * n + pos_part z * n + n
suc_parts z n = omega (arith, ap (λ (t : ℕ). t * n) (+ℤ_parts z (pos 1)))

-- The bucket of a floor: at most the value, and the next bucket's start is above it.
pub floor_bounds :
    (a : ℤ) (n : ℕ)
    → 0 < n
    → (floor_div a n *ℤ pos n ≤ℤ a) × ((a +ℤ pos 1) ≤ℤ ((floor_div a n +ℤ pos 1) *ℤ pos n))
unfolding floor_div
floor_bounds (pos a) n h = omega (
  arith,
  scale_parts (pos (a / n)) n,
  scale_parts (pos (a / n) +ℤ pos 1) n,
  suc_parts (pos (a / n)) n,
  +ℤ_parts (pos a) (pos 1),
  div-add-mod' a n,
  mod-lt a h,
)
floor_bounds (negsuc a) n h = omega (
  arith,
  scale_parts (negsuc (a / n)) n,
  scale_parts (negsuc (a / n) +ℤ pos 1) n,
  suc_parts (negsuc (a / n)) n,
  +ℤ_parts (negsuc a) (pos 1),
  div-add-mod' a n,
  mod-lt a h,
)

mul_cancel : (a b n : ℕ) → a * n < b * n → a < b
mul_cancel a b n h = grind arith

-- Such a bucket is the only one.
pub floor_unique :
    (a k : ℤ) (n : ℕ)
    → 0 < n
    → k *ℤ pos n ≤ℤ a
    → (a +ℤ pos 1) ≤ℤ ((k +ℤ pos 1) *ℤ pos n)
    → floor_div a n ≡ k
floor_unique a k n h l u =
    let f = floor_div a n in
    let b = floor_bounds a n h in
    omega (
      arith,
      eq_of_parts f k,
      b,
      l,
      u,
      scale_parts f n,
      scale_parts k n,
      scale_parts (f +ℤ pos 1) n,
      scale_parts (k +ℤ pos 1) n,
      suc_parts f n,
      suc_parts k n,
      +ℤ_parts a (pos 1),
      mul_cancel (pos_part f + neg_part k) (pos_part k + neg_part f + 1) n,
      mul_cancel (pos_part k + neg_part f) (pos_part f + neg_part k + 1) n,
    )

quot_parts :
    (a n : ℕ) (k : ℤ)
    → k ≡ quot (negsuc a) (pos n)
    → pos_part (k *ℤ pos n) + suc a ≡ neg_part (k *ℤ pos n) + suc a % n
quot_parts a n k e =
    let q = suc a / n in
    let parts : pos_part k + q ≡ neg_part k = rw e (omega (arith, -ℤ_parts (pos 0) (pos q))) in
    omega (arith, scale_parts k n, ap (λ (t : ℕ). t * n) parts, div-add-mod' (suc a) n)

less_one :
    (k : ℤ) (n : ℕ)
    → pos_part ((k -ℤ pos 1) *ℤ pos n) + neg_part (k *ℤ pos n) + n
      ≡ neg_part ((k -ℤ pos 1) *ℤ pos n) + pos_part (k *ℤ pos n)
less_one k n =
    omega (
      arith,
      scale_parts k n,
      scale_parts (k -ℤ pos 1) n,
      ap (λ (t : ℕ). t * n) (-ℤ_parts k (pos 1)),
    )

pub one_more :
    (k : ℤ) (n : ℕ)
    → pos_part ((k +ℤ pos 1) *ℤ pos n) + neg_part (k *ℤ pos n)
      ≡ neg_part ((k +ℤ pos 1) *ℤ pos n) + pos_part (k *ℤ pos n) + n
one_more k n = omega (arith, scale_parts k n, scale_parts (k +ℤ pos 1) n, suc_parts k n)

-- The bucket that rounds towards nought and is corrected is the floor.
pub floor-bucket : (sec : ℤ) (n : ℕ) → 0 < n → floor_bucket sec (pos n) ≡ floor_div sec n
unfolding floor_bucket floor_div
floor-bucket (pos a) n h = ground arith
floor-bucket (negsuc a) n h = elim (Bool-cases test) [
  | inl t ↦
      let odd : 0 < suc a % n = ground (arith, -ℤ_parts (negsuc a) (k *ℤ pos n), parts, t) in
      rw t (
        sym (
          floor_unique (negsuc a) (k -ℤ pos 1) n h
            (omega (arith, less_one k n, parts, mod-lt (suc a) h))
            (omega
              (arith, less_one k n, one_more (k -ℤ pos 1) n, parts, +ℤ_parts (negsuc a) (pos 1)))))
  | inr t ↦
      let even : suc a % n ≡ 0 = ground (arith, -ℤ_parts (negsuc a) (k *ℤ pos n), parts, t) in
      rw t (
        sym (
          floor_unique (negsuc a) k n h (omega (arith, parts))
            (omega (arith, one_more k n, parts, +ℤ_parts (negsuc a) (pos 1)))))
]
  where
    k : ℤ
    k = quot (negsuc a) (pos n)

    parts : pos_part (k *ℤ pos n) + suc a ≡ neg_part (k *ℤ pos n) + suc a % n
    parts = quot_parts a n k refl

    test : Bool
    test = not (eqb_ℤ (negsuc a -ℤ k *ℤ pos n) (pos 0)) && ltb_ℤ (negsuc a) (pos 0)
