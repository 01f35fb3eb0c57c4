-- ===== src/Broker/Submit/Children.antt =====
-- Setting the children of an order leaves the ids and statuses of the book as they are.
use strat_forge.Common.{ℕ, false, List, [], ◌∷◌, ◌≡◌, refl, arith, Bool-cases, inl, inr, ◌∙◌, ◌==◌}
use strat_forge.Double.{Double}
use strat_forge.Broker.Order.{Order}
use strat_forge.Broker.State.{find_order}
use strat_forge.Broker.State.Books.{ids, status_in}
use strat_forge.Broker.Submit.{set_children}
use strat_forge.Broker.Process.Cancels.{InOrder, AllMirrored}

module _ {W : Type 0} ⦃d : Double W⦄ where
  pub find-set_children :
      (i j : ℕ) (kids : List ℕ) (os : List (Order W))
      → (i == j) ≡ false
      → find_order j (set_children i kids os) ≡ find_order j os
  unfolding find_order set_children
  find-set_children i j kids [] h = refl
  find-set_children i j kids (o ∷ os) h = ground (arith, find-set_children i j kids os h)

  pub status-set_children :
      (i j : ℕ) (kids : List ℕ) (os : List (Order W))
      → status_in j (set_children i kids os) ≡ status_in j os
  unfolding find_order set_children
  status-set_children i j kids [] = refl
  status-set_children i j kids (o ∷ os) = ground (arith, status-set_children i j kids os)

  pub ids-set_children :
      (i : ℕ) (kids : List ℕ) (os : List (Order W)) → ids (set_children i kids os) ≡ ids os
  unfolding set_children
  ids-set_children i kids [] = refl
  ids-set_children i kids (o ∷ os) = ground (arith, ids-set_children i kids os)

  pub InOrder-set_children :
      (i n : ℕ) (kids : List ℕ) (os : List (Order W))
      → InOrder n os
      → InOrder n (set_children i kids os)
  unfolding set_children
  InOrder-set_children i n kids [] h = tt
  InOrder-set_children i n kids (o ∷ os) h = ground (arith, InOrder-set_children i o.id kids os h.2)

  pub mirrored-set_children :
      (i k : ℕ) (kids : List ℕ) (bk os : List (Order W))
      → AllMirrored bk os
      → AllMirrored (set_children k kids bk) (set_children i kids os)
  unfolding set_children
  mirrored-set_children i k kids bk [] m = tt
  mirrored-set_children i k kids bk (o ∷ os) m =
      let rest = mirrored-set_children i k kids bk os m.1 in
      let same = mirrored_elsewhere os m.1 in
      elim (Bool-cases (o.id == i)) [
        | inl e ↦ rw e (status-set_children k o.id kids bk ∙ m.0, same)
        | inr e ↦ rw e (status-set_children k o.id kids bk ∙ m.0, rest)
      ]
    where
      mirrored_elsewhere :
          (xs : List (Order W)) → AllMirrored bk xs → AllMirrored (set_children k kids bk) xs
      mirrored_elsewhere [] h = tt
      mirrored_elsewhere (x ∷ xs) h =
          (status-set_children k x.id kids bk ∙ h.0, mirrored_elsewhere xs h.1)
