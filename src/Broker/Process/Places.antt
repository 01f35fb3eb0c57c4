-- ===== src/Broker/Process/Places.antt =====
-- Places in the list that a pass walks: what is behind it and what is ahead.
use strat_forge.Common.{
  ℕ, List, [], ◌∷◌, ◌++◌, ◌≡◌, refl, ap, arith, All, All-imp, ◌<◌, ◌≤◌, length, get_elem?, set,
  some,
}
use strat_forge.Broker.Order.{Order}
use strat_forge.Broker.Process.Cancels.{InOrder}
use strat_forge.Broker.Process.Tend.{NoChild}

module _ {ℓ} {A : Type ℓ} where
  pub get-middle :
      (xs : List A) (y : A) (ys : List A) → get_elem? (xs ++ (y ∷ ys)) (length xs) ≡ some y
  get-middle [] y ys = refl
  get-middle (x ∷ xs) y ys = get-middle xs y ys

  pub set-middle :
      (xs : List A) (y z : A) (ys : List A)
      → set (xs ++ (y ∷ ys)) (length xs) z ≡ (xs ++ (z ∷ [])) ++ ys
  set-middle [] y z ys = refl
  set-middle (x ∷ xs) y z ys = ap (◌∷◌ x) (set-middle xs y z ys)

  pub snoc-middle : (xs : List A) (y : A) (ys : List A) → xs ++ (y ∷ ys) ≡ (xs ++ (y ∷ [])) ++ ys
  snoc-middle [] y ys = refl
  snoc-middle (x ∷ xs) y ys = ap (◌∷◌ x) (snoc-middle xs y ys)

module _ {W : Type 0} where
  -- Orders at or below an id, each younger than its parent.
  abbrev pub UpTo : ℕ → List (Order W) → Type 0
  UpTo k = All λ o. (o.id ≤ k) × (o.parent_id < o.id)

  pub InOrder-snoc :
      (n k : ℕ) (os : List (Order W)) (o : Order W)
      → InOrder n os
      → UpTo k os
      → n < o.id
      → k < o.id
      → o.parent_id < o.id
      → InOrder n (os ++ (o ∷ []))
  InOrder-snoc n k [] o h u l m p = (l, p, tt)
  InOrder-snoc n k (x ∷ xs) o h u l m p =
      (h.0, h.1, InOrder-snoc x.id k xs o h.2 u.1 (omega (arith, u.0.0)) m p)

  pub UpTo-NoChild : (k i : ℕ) (os : List (Order W)) → UpTo k os → k ≤ i → NoChild i os
  UpTo-NoChild k i [] u h = tt
  UpTo-NoChild k i (o ∷ os) u h = (ground (arith, u.0.0, u.0.1), UpTo-NoChild k i os u.1 h)

  pub UpTo-raise : (k i : ℕ) (os : List (Order W)) → UpTo k os → k ≤ i → UpTo i os
  UpTo-raise k i os u h = All-imp os (λ o v. (omega (arith, v.0), v.1)) u
