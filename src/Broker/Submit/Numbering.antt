-- ===== src/Broker/Submit/Numbering.antt =====
-- Submission numbers the orders upwards, so that ids tell them apart.
use strat_forge.Common.{
  ℕ, List, [], ◌∷◌, ◌++◌, ◌≡◌, refl, arith, All, ◌==◌, if◌then◌else◌, ◌<◌, ◌≤◌, none, some,
}
use strat_forge.Broker.Order.{Order, OrderStatus}
use strat_forge.Broker.State.{find_order}
use strat_forge.Broker.State.Books.{status_in}

module _ {W : Type 0} where
  -- Positive ids below the next one.
  abbrev pub Numbered : ℕ → List (Order W) → Type 0
  Numbered n = All λ o. (0 < o.id) × (o.id < n)

  pub find_above : (n j : ℕ) (os : List (Order W)) → Numbered n os → n ≤ j → find_order j os ≡ none
  unfolding find_order
  find_above n j [] h l = refl
  find_above n j (o ∷ os) h l = ground (arith, find_above n j os h.1 l, h.0.1)

  pub find_zero : (n : ℕ) (os : List (Order W)) → Numbered n os → find_order 0 os ≡ none
  unfolding find_order
  find_zero n [] h = refl
  find_zero n (o ∷ os) h = ground (arith, find_zero n os h.1, h.0.0)

  pub found-Numbered :
      (n j : ℕ) (os : List (Order W)) (s : OrderStatus)
      → Numbered n os
      → status_in j os ≡ some s
      → (0 < j) × (j < n)
  unfolding find_order
  found-Numbered n j [] s h e = absurd (ground arith)
  found-Numbered n j (o ∷ os) s h e = ground (arith, found-Numbered n j os s h.1, h.0.0, h.0.1)

  pub find-snoc :
      (n j : ℕ) (os : List (Order W)) (o : Order W)
      → Numbered n os
      → o.id ≡ n
      → find_order j (os ++ (o ∷ [])) ≡ (if n == j then some o else find_order j os)
  unfolding find_order
  find-snoc n j [] o h e = ground arith
  find-snoc n j (x ∷ os) o h e = ground (arith, find-snoc n j os o h.1 e, h.0.1)
