-- ===== src/Double/Order.antt =====
-- `std::min`, `std::max` and `std::clamp` over ordered doubles.
use strat_forge.Common.{◌≡◌, arith, false}
use strat_forge.Double.{Double, ◌≼◌, ◌≺◌, IsOrdered, fmin, fmax, clamp}

module _ {W : Type 0} ⦃d : Double W⦄ (laws : IsOrdered W) where
  open laws use {le_refl, le_trans, lt-eq-not-le, le_total}

  pub le_of_not_lt : (x y : W) → d.lt x y ≡ false → y ≼ x
  le_of_not_lt x y h = ground (arith, lt-eq-not-le x y)

  pub le_of_lt : (x y : W) → x ≺ y → x ≼ y
  le_of_lt x y h = ground (arith, lt-eq-not-le x y, le_total x y)

  pub le_fmin : (m a b : W) → m ≼ a → m ≼ b → m ≼ fmin a b
  unfolding fmin
  le_fmin m a b h k = ground arith

  pub fmin_le_left : (a b : W) → fmin a b ≼ a
  unfolding fmin
  fmin_le_left a b = ground (arith, le_refl a, le_of_lt b a)

  pub fmin_le_right : (a b : W) → fmin a b ≼ b
  unfolding fmin
  fmin_le_right a b = ground (arith, le_refl b, le_of_not_lt b a)

  pub le_fmax_left : (a b : W) → a ≼ fmax a b
  unfolding fmax
  le_fmax_left a b = ground (arith, le_refl a, le_of_lt a b)

  pub le_fmax_right : (a b : W) → b ≼ fmax a b
  unfolding fmax
  le_fmax_right a b = ground (arith, le_refl b, le_of_not_lt a b)

  pub clamp_bounds : (v lo hi : W) → lo ≼ hi → (lo ≼ clamp v lo hi) × (clamp v lo hi ≼ hi)
  unfolding clamp
  clamp_bounds v lo hi h =
      ground (arith, le_refl lo, le_refl hi, le_of_not_lt v lo, le_of_not_lt hi v)
