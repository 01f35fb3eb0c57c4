-- ===== src/Double/Ring.antt =====
-- Rearranging sums and products of exact doubles.
use strat_forge.Common.{◌≡◌, refl, sym, ap, ◌∙◌}
use strat_forge.Double.{◌≼◌, Double, ◌⊕◌, ◌⊖◌, ◌⊗◌, IsExact}

module _ {W : Type 0} ⦃d : Double W⦄ (laws : IsExact W) where
  open laws use {
    add_assoc, add_comm, add_zero, add_neg, sub-eq, mul_comm, add_mul, zero_mul, le_add,
  }

  pub add_left_comm : (x y z : W) → x ⊕ (y ⊕ z) ≡ y ⊕ (x ⊕ z)
  add_left_comm x y z = sym (add_assoc x y z) ∙ (rw (add_comm x y) (add_assoc y x z))

  pub zero_add : (x : W) → d.lit 0 ⊕ x ≡ x
  zero_add x = add_comm (d.lit 0) x ∙ add_zero x

  pub add_cancel : (x y : W) → x ⊕ (d.neg x ⊕ y) ≡ y
  add_cancel x y = sym (add_assoc x (d.neg x) y) ∙ rw (add_neg x) (zero_add y)

  pub add_cancel' : (x y : W) → d.neg x ⊕ (x ⊕ y) ≡ y
  add_cancel' x y = add_left_comm (d.neg x) x y ∙ add_cancel x y

  pub eq_neg_of_add : (x y : W) → x ⊕ y ≡ d.lit 0 → y ≡ d.neg x
  eq_neg_of_add x y h = sym (add_cancel' x y) ∙ rw h (add_zero (d.neg x))

  pub neg_add : (x y : W) → d.neg (x ⊕ y) ≡ d.neg x ⊕ d.neg y
  neg_add x y = sym (
      eq_neg_of_add (x ⊕ y) (d.neg x ⊕ d.neg y) (
        add_assoc x y (d.neg x ⊕ d.neg y)
        ∙ rw (add_comm (d.neg x) (d.neg y), add_cancel y (d.neg x)) (add_neg x)))

  pub neg_neg : (x : W) → d.neg (d.neg x) ≡ x
  neg_neg x = sym (eq_neg_of_add (d.neg x) x (add_comm (d.neg x) x ∙ add_neg x))

  pub neg_zero : d.neg (d.lit 0) ≡ d.lit 0
  neg_zero = sym (eq_neg_of_add (d.lit 0) (d.lit 0) (add_zero (d.lit 0)))

  pub neg_mul : (x y : W) → d.neg x ⊗ y ≡ d.neg (x ⊗ y)
  neg_mul x y =
      eq_neg_of_add (x ⊗ y) (d.neg x ⊗ y)
        (sym (add_mul x (d.neg x) y) ∙ (rw (add_neg x) (zero_mul y)))

  pub mul_add : (x y z : W) → x ⊗ (y ⊕ z) ≡ (x ⊗ y) ⊕ (x ⊗ z)
  mul_add x y z = mul_comm x (y ⊕ z) ∙ add_mul y z x ∙ ap₂' (mul_comm y x) (mul_comm z x)
    where
      ap₂' : {a b c e : W} → a ≡ b → c ≡ e → a ⊕ c ≡ b ⊕ e
      ap₂' p q = λ i. p i ⊕ q i

  pub add_sub_sub : (x p f : W) → (x ⊖ p) ⊖ (f ⊖ p) ≡ x ⊖ f
  add_sub_sub x p f =
      rw
        (sub-eq (x ⊖ p) (f ⊖ p), sub-eq x p, sub-eq f p, sub-eq x f, neg_add f (d.neg p), neg_neg p)
        (add_assoc x (d.neg p) (d.neg f ⊕ p)
          ∙ rw (add_comm (d.neg f) p) (rw (add_cancel' p (d.neg f)) refl))

  pub mul_neg : (x y : W) → x ⊗ d.neg y ≡ d.neg (x ⊗ y)
  mul_neg x y = mul_comm x (d.neg y) ∙ neg_mul y x ∙ ap d.neg (mul_comm y x)

  pub mul_sub : (x y z : W) → x ⊗ (y ⊖ z) ≡ (x ⊗ y) ⊖ (x ⊗ z)
  mul_sub x y z = rw (sub-eq y z, mul_add x y (d.neg z), mul_neg x z, sub-eq (x ⊗ y) (x ⊗ z)) refl

  pub add_sub_add : (a b p q : W) → (a ⊕ b) ⊖ (p ⊕ q) ≡ (a ⊖ p) ⊕ (b ⊖ q)
  add_sub_add a b p q =
      rw (sub-eq (a ⊕ b) (p ⊕ q), sub-eq a p, sub-eq b q, neg_add p q)
        (simp (add_assoc, add_left_comm))

  pub neg_add_eq_sub : (a b : W) → d.neg a ⊕ b ≡ b ⊖ a
  neg_add_eq_sub a b = add_comm (d.neg a) b ∙ sym (sub-eq b a)

  pub neg_nonneg : (x : W) → x ≼ d.lit 0 → d.lit 0 ≼ d.neg x
  neg_nonneg x h = rw (zero_add (d.neg x)) at (rw (add_neg x) at (le_add x (d.lit 0) (d.neg x) h))

  pub sub_nonneg : (x y : W) → x ≼ y → d.lit 0 ≼ (y ⊖ x)
  sub_nonneg x y h = rw (sub-eq y x) (rw (add_neg x) at (le_add x y (d.neg x) h))

  pub sub_add_cancel : (x y : W) → (y ⊖ x) ⊕ x ≡ y
  sub_add_cancel x y =
      rw (sub-eq y x)
        (add_comm (y ⊕ d.neg x) x ∙ (add_left_comm x y (d.neg x) ∙ rw (add_neg x) (add_zero y)))

  -- A part of a volume at one rate, and the rest at the same rate.
  pub add_mul_sub : (c a x r : W) → (c ⊕ (a ⊗ r)) ⊕ ((x ⊖ a) ⊗ r) ≡ c ⊕ (x ⊗ r)
  add_mul_sub c a x r =
      add_assoc c (a ⊗ r) ((x ⊖ a) ⊗ r)
      ∙ ap (λ z. c ⊕ z)
          (sym (add_mul a (x ⊖ a) r) ∙ rw (add_comm a (x ⊖ a), sub_add_cancel a x) refl)
