-- ===== src/Double/Lots.antt =====
-- A type that meets every law: prices and sizes as integer numbers of the smallest unit, so that a
-- value below the literal 1e-10 in size is nought.
use strat_forge.Common.{ℕ, suc, ◌*◌, true, ◌≡◌, ap, arith}
use strat_forge.Common.Int.{
  ℤ, pos, negsuc, pos_part, neg_part, ◌+ℤ◌, ◌-ℤ◌, ◌*ℤ◌, ltb_ℤ, leb_ℤ, eqb_ℤ, int_laws, +ℤ_parts,
  *ℤ_parts, eq_of_parts,
}
use strat_forge.Double.{Double, IsOrdered, IsExact}

-- Division rounds towards nought.
abbrev pub quot : ℤ → ℤ → ℤ
quot (pos a) (pos b) = pos (Prim.Native.Nat.◌/◌ a b)
quot (pos a) (negsuc b) = pos 0 -ℤ pos (Prim.Native.Nat.◌/◌ a (suc b))
quot (negsuc a) (pos b) = pos 0 -ℤ pos (Prim.Native.Nat.◌/◌ (suc a) b)
quot (negsuc a) (negsuc b) = pos (Prim.Native.Nat.◌/◌ (suc a) (suc b))

instance abbrev pub lots : Double ℤ
lots = record {
  lit = pos;
  tiny = pos 1;
  tick = pos 1;
  add = ◌+ℤ◌;
  sub = ◌-ℤ◌;
  mul = ◌*ℤ◌;
  div = quot;
  neg = λ a. pos 0 -ℤ a;
  lt = ltb_ℤ;
  le = leb_ℤ;
  eq = eqb_ℤ;
}

-- The equation between the parts of an inner sum or product, times each part of the outer factor.
*ℤ_assoc : (x y z : ℤ) → x *ℤ y *ℤ z ≡ x *ℤ (y *ℤ z)
*ℤ_assoc x y z = omega (
  arith,
  eq_of_parts (x *ℤ y *ℤ z) (x *ℤ (y *ℤ z)),
  *ℤ_parts (x *ℤ y) z,
  *ℤ_parts x (y *ℤ z),
  ap (λ (t : ℕ). t * pos_part z) (*ℤ_parts x y),
  ap (λ (t : ℕ). t * neg_part z) (*ℤ_parts x y),
  ap (λ (t : ℕ). pos_part x * t) (*ℤ_parts y z),
  ap (λ (t : ℕ). neg_part x * t) (*ℤ_parts y z),
)

+ℤ_mul : (x y z : ℤ) → (x +ℤ y) *ℤ z ≡ x *ℤ z +ℤ y *ℤ z
+ℤ_mul x y z = omega (
  arith,
  eq_of_parts ((x +ℤ y) *ℤ z) (x *ℤ z +ℤ y *ℤ z),
  *ℤ_parts (x +ℤ y) z,
  *ℤ_parts x z,
  *ℤ_parts y z,
  +ℤ_parts (x *ℤ z) (y *ℤ z),
  ap (λ (t : ℕ). t * pos_part z) (+ℤ_parts x y),
  ap (λ (t : ℕ). t * neg_part z) (+ℤ_parts x y),
)

+ℤ_le : (x y z : ℤ) → leb_ℤ x y ≡ true → leb_ℤ (x +ℤ z) (y +ℤ z) ≡ true
+ℤ_le x y z h = ground (arith, +ℤ_parts x z, +ℤ_parts y z)

*ℤ_nonneg :
    (x y : ℤ) → leb_ℤ (pos 0) x ≡ true → leb_ℤ (pos 0) y ≡ true → leb_ℤ (pos 0) (x *ℤ y) ≡ true
unfolding ◌*ℤ◌
*ℤ_nonneg x y h k = ground arith

pub lots-IsOrdered : IsOrdered ℤ
lots-IsOrdered = record {
  le_refl = λ x. ground arith;
  le_trans = λ x y z h k. ground arith;
  lt-eq-not-le = λ x y. ground arith;
  le_total = λ x y. ground arith;
}

pub lots-IsExact : IsExact ℤ
lots-IsExact = record {
  add_assoc = λ x y z. omega int_laws;
  add_comm = λ x y. omega int_laws;
  add_zero = λ x. omega int_laws;
  add_neg = λ x. omega int_laws;
  sub-eq = λ x y. omega int_laws;
  mul_comm = λ x y. omega int_laws;
  mul_assoc = λ x y z. *ℤ_assoc x y z;
  add_mul = λ x y z. +ℤ_mul x y z;
  zero_mul = λ x. omega int_laws;
  one_mul = λ x. omega int_laws;
  le_add = λ x y z h. +ℤ_le x y z h;
  mul_nonneg = λ x y h k. *ℤ_nonneg x y h k;
  le_antisymm = λ x y h k. ground arith;
  eq_iff = λ x y h. ground arith;
}
