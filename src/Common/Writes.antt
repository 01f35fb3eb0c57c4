-- ===== src/Common/Writes.antt =====
-- Lists after a write, and equality of lists by their look-ups.
use Prim.Native.Nat.{ℕ, zero, suc, ◌<◌}
use mathlib.Core.Path.{◌≡◌, refl, ap, ap₂, subst}
use mathlib.Core.Logic.{◌⊎◌, inl, inr}
use mathlib.Core.List.{List, [], ◌∷◌, map}
use mathlib.Core.Option.{some}
use native.Mathlib.Omega.{arith}
use strat_forge.Common.Lists.{length, get_elem?, set, All}

module _ {ℓ} {A : Type ℓ} where
  pub length-set : (xs : List A) (i : ℕ) (v : A) → length (set xs i v) ≡ length xs
  length-set [] i v = refl
  length-set (x ∷ xs) zero v = refl
  length-set (x ∷ xs) (suc i) v = ap suc (length-set xs i v)

  pub get_elem?-set_same :
      (xs : List A) (i : ℕ) (v : A) → i < length xs → get_elem? (set xs i v) i ≡ some v
  get_elem?-set_same [] i v h = absurd (omega (arith, h))
  get_elem?-set_same (x ∷ xs) zero v h = refl
  get_elem?-set_same (x ∷ xs) (suc i) v h = get_elem?-set_same xs i v (omega (arith, h))

  -- What a look-up finds after a write was written, or was there before.
  pub get_elem?-set_cases :
      (xs : List A) (i j : ℕ) (v y : A)
      → get_elem? (set xs i v) j ≡ some y
      → (y ≡ v) ⊎ (get_elem? xs j ≡ some y)
  get_elem?-set_cases [] i j v y h = inr h
  get_elem?-set_cases (x ∷ xs) zero zero v y h = inl (cc h)
  get_elem?-set_cases (x ∷ xs) zero (suc j) v y h = inr h
  get_elem?-set_cases (x ∷ xs) (suc i) zero v y h = inr h
  get_elem?-set_cases (x ∷ xs) (suc i) (suc j) v y h = get_elem?-set_cases xs i j v y h

  -- A write over one value leaves every other.
  pub get_elem?-set_kept :
      (xs : List A) (i j : ℕ) (v x y : A)
      → get_elem? xs j ≡ some x
      → get_elem? xs i ≡ some y
      → (x ≡ y → ⊥)
      → get_elem? (set xs i v) j ≡ some x
  get_elem?-set_kept [] i j v x y h k n = h
  get_elem?-set_kept (a ∷ xs) zero zero v x y h k n = absurd (n (cc (h, k)))
  get_elem?-set_kept (a ∷ xs) zero (suc j) v x y h k n = h
  get_elem?-set_kept (a ∷ xs) (suc i) zero v x y h k n = h
  get_elem?-set_kept (a ∷ xs) (suc i) (suc j) v x y h k n = get_elem?-set_kept xs i j v x y h k n

  pub get_elem?-set_other :
      (xs : List A) (i j : ℕ) (v : A) → (i ≡ j → ⊥) → get_elem? (set xs i v) j ≡ get_elem? xs j
  get_elem?-set_other [] i j v n = refl
  get_elem?-set_other (a ∷ xs) zero zero v n = absurd (n refl)
  get_elem?-set_other (a ∷ xs) zero (suc j) v n = refl
  get_elem?-set_other (a ∷ xs) (suc i) zero v n = refl
  get_elem?-set_other (a ∷ xs) (suc i) (suc j) v n =
      get_elem?-set_other xs i j v (λ e. n (ap suc e))

  pub get_elem?-below : (xs : List A) (i : ℕ) (x : A) → get_elem? xs i ≡ some x → i < length xs
  get_elem?-below [] i x h = absurd (cc h)
  get_elem?-below (y ∷ xs) zero x h = omega arith
  get_elem?-below (y ∷ xs) (suc i) x h = omega (arith, get_elem?-below xs i x h)

  pub get_elem?-exists : (xs : List A) (i : ℕ) → i < length xs → (x : A) × (get_elem? xs i ≡ some x)
  get_elem?-exists [] i h = absurd (omega (arith, h))
  get_elem?-exists (y ∷ xs) zero h = (y, refl)
  get_elem?-exists (y ∷ xs) (suc i) h = get_elem?-exists xs i (omega (arith, h))

  pub All-get_elem? {κ} :
      (P : A → Type κ) (xs : List A) (i : ℕ) (x : A) → All P xs → get_elem? xs i ≡ some x → P x
  All-get_elem? P [] i x h k = absurd (cc k)
  All-get_elem? P (y ∷ xs) zero x h k = let e : y ≡ x = cc k in subst P e h.0
  All-get_elem? P (y ∷ xs) (suc i) x h k = All-get_elem? P xs i x h.1 k

  pub eq-get_elem? :
      (xs ys : List A)
      → length xs ≡ length ys
      → ((i : ℕ) → i < length xs → get_elem? xs i ≡ get_elem? ys i)
      → xs ≡ ys
  eq-get_elem? [] [] n h = refl
  eq-get_elem? [] (y ∷ ys) n h = absurd (omega (arith, n))
  eq-get_elem? (x ∷ xs) [] n h = absurd (omega (arith, n))
  eq-get_elem? (x ∷ xs) (y ∷ ys) n h =
      let e : some x ≡ some y = h 0 (omega arith) in
      let head : x ≡ y = cc e in
      ap₂ ◌∷◌ head (eq-get_elem? xs ys (omega (arith, n)) (λ i l. h (suc i) (omega (arith, l))))

pub length-map {ℓ κ} :
    {A : Type ℓ} {B : Type κ} (f : A → B) (xs : List A) → length (map f xs) ≡ length xs
length-map f [] = refl
length-map f (x ∷ xs) = ap suc (length-map f xs)

pub get_elem?-map {ℓ κ} :
    {A : Type ℓ} {B : Type κ} (f : A → B) (xs : List A) (i : ℕ) (x : A)
    → get_elem? xs i ≡ some x
    → get_elem? (map f xs) i ≡ some (f x)
get_elem?-map f [] i x h = absurd (cc h)
get_elem?-map f (y ∷ xs) zero x h = let e : y ≡ x = cc h in ap (λ z. some (f z)) e
get_elem?-map f (y ∷ xs) (suc i) x h = get_elem?-map f xs i x h
