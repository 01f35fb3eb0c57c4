-- ===== src/Double.antt =====
-- What the code does with a `double`: its arithmetic, its comparisons and its literals, as an
-- interface. The components are written over it, and state by `IsOrdered` or `IsExact` what they
-- need of it.
pub mod Order
pub mod Ring
pub mod Lots
use strat_forge.Common.{ℕ, Bool, true, not, ◌≡◌, ◌⊎◌, if◌then◌else◌}

-- `tiny` is the literal 1e-10 and `tick` the literal 1e-12; `lit n` is the literal or conversion n.
pub record Double (W : Type 0) : Type 0 where
  pub lit : ℕ → W
  pub tiny : W
  pub tick : W
  pub add : W → W → W
  pub sub : W → W → W
  pub mul : W → W → W
  pub div : W → W → W
  pub neg : W → W
  pub lt : W → W → Bool
  pub le : W → W → Bool
  pub eq : W → W → Bool

module _ {W : Type 0} ⦃d : Double W⦄ where
  infixl 65 ◌⊕◌ ◌⊖◌
  infixl 70 ◌⊗◌ ◌⊘◌
  infix 50 ◌≼◌ ◌≺◌
  abbrev pub ◌⊕◌ : W → W → W
  ◌⊕◌ = d.add

  abbrev pub ◌⊖◌ : W → W → W
  ◌⊖◌ = d.sub

  abbrev pub ◌⊗◌ : W → W → W
  ◌⊗◌ = d.mul

  abbrev pub ◌⊘◌ : W → W → W
  ◌⊘◌ = d.div

  abbrev pub nought : W
  nought = d.lit 0

  abbrev pub ◌≼◌ : W → W → Type 0
  x ≼ y = d.le x y ≡ true

  abbrev pub ◌≺◌ : W → W → Type 0
  x ≺ y = d.lt x y ≡ true

  -- `std::abs`, `std::min`, `std::max` and `std::clamp`, as the standard defines them.
  unfoldable pub abs : W → W
  abs x = if d.lt x (d.lit 0) then d.neg x else x

  unfoldable pub fmin : W → W → W
  fmin a b = if d.lt b a then b else a

  unfoldable pub fmax : W → W → W
  fmax a b = if d.lt a b then b else a

  unfoldable pub clamp : W → W → W → W
  clamp v lo hi = if d.lt v lo then lo else if d.lt hi v then hi else v

-- The order of the doubles that are no NaN.
pub record IsOrdered (W : Type 0) ⦃d : Double W⦄ : Type 0 where
  pub le_refl : (x : W) → x ≼ x
  pub le_trans : (x y z : W) → x ≼ y → y ≼ z → x ≼ z
  pub lt-eq-not-le : (x y : W) → d.lt x y ≡ not (d.le y x)
  pub le_total : (x y : W) → (x ≼ y) ⊎ (y ≼ x)

-- Arithmetic without rounding: the laws of an ordered commutative ring.
pub record IsExact (W : Type 0) ⦃d : Double W⦄ : Type 0 where
  pub add_assoc : (x y z : W) → (x ⊕ y) ⊕ z ≡ x ⊕ (y ⊕ z)
  pub add_comm : (x y : W) → x ⊕ y ≡ y ⊕ x
  pub add_zero : (x : W) → x ⊕ d.lit 0 ≡ x
  pub add_neg : (x : W) → x ⊕ d.neg x ≡ d.lit 0
  pub sub-eq : (x y : W) → x ⊖ y ≡ x ⊕ d.neg y
  pub mul_comm : (x y : W) → x ⊗ y ≡ y ⊗ x
  pub mul_assoc : (x y z : W) → (x ⊗ y) ⊗ z ≡ x ⊗ (y ⊗ z)
  pub add_mul : (x y z : W) → (x ⊕ y) ⊗ z ≡ (x ⊗ z) ⊕ (y ⊗ z)
  pub zero_mul : (x : W) → d.lit 0 ⊗ x ≡ d.lit 0
  pub one_mul : (x : W) → d.lit 1 ⊗ x ≡ x
  pub le_add : (x y z : W) → x ≼ y → (x ⊕ z) ≼ (y ⊕ z)
  pub mul_nonneg : (x y : W) → d.lit 0 ≼ x → d.lit 0 ≼ y → d.lit 0 ≼ (x ⊗ y)
  pub le_antisymm : (x y : W) → x ≼ y → y ≼ x → x ≡ y
  pub eq_iff : (x y : W) → d.eq x y ≡ true → x ≡ y
