-- ===== src/Broker/Process/Tend.antt =====
-- Waking or cancelling the children of an order, seen on the part of the vector behind that order.
use strat_forge.Common.{
  ℕ, Bool, false, ◌&&◌, List, [], ◌∷◌, ◌++◌, ◌≡◌, refl, ap, arith, All, Bool-cases, inl, inr, ◌∙◌,
  ◌==◌, if◌then◌else◌, ◌≤◌, length,
}
use strat_forge.Double.{Double}
use strat_forge.Broker.Order.{Order, is_completed}
use strat_forge.Broker.State.{Broker, find_order}
use strat_forge.Broker.State.Books.{ids}
use strat_forge.Broker.Submit.{cancel_all}
use strat_forge.Broker.Process.{activate, tend_children, is_failed, has_children}
use strat_forge.Broker.Process.Cancels.{InOrder, AllMirrored, Frozen, cancel_all-Cancelled}

module _ {W : Type 0} where
  abbrev pub NoChild : ℕ → List (Order W) → Type 0
  NoChild p = All λ o. (o.parent_id == p) ≡ false

  activate-skip :
      (p : ℕ) (xs ys : List (Order W)) → NoChild p xs → activate p (xs ++ ys) ≡ xs ++ activate p ys
  unfolding activate
  activate-skip p [] ys h = refl
  activate-skip p (x ∷ xs) ys h = ground (arith, activate-skip p xs ys h.1)

  activate-InOrder : (p n : ℕ) (os : List (Order W)) → InOrder n os → InOrder n (activate p os)
  unfolding activate
  activate-InOrder p n [] h = tt
  activate-InOrder p n (o ∷ os) h = ground (arith, activate-InOrder p o.id os h.2)

  activate-mirrored :
      (p : ℕ) (book os : List (Order W)) → AllMirrored book os → AllMirrored book (activate p os)
  unfolding activate
  activate-mirrored p book [] h = tt
  activate-mirrored p book (o ∷ os) h = ground (arith, activate-mirrored p book os h.1)

  length-activate : (p : ℕ) (os : List (Order W)) → length (activate p os) ≡ length os
  unfolding activate
  length-activate p [] = refl
  length-activate p (o ∷ os) = ap Prim.Native.Nat.suc (length-activate p os)

module _ {W : Type 0} ⦃d : Double W⦄ where
  cancel_all-skip :
      (p : ℕ) (xs ys : List (Order W)) (b : Broker W)
      → NoChild p xs
      → let (b', ys') = cancel_all (λ c. c.parent_id == p) ys b in
        cancel_all (λ c. c.parent_id == p) (xs ++ ys) b ≡ (b', xs ++ ys')
  unfolding cancel_all
  cancel_all-skip p [] ys b h = refl
  cancel_all-skip p (x ∷ xs) ys b h = rw (h.0, cancel_all-skip p xs ys b h.1)

  length-cancel_all :
      (test : Order W → Bool) (os : List (Order W)) (b : Broker W)
      → length (cancel_all test os b).1 ≡ length os
  unfolding cancel_all
  length-cancel_all test [] b = refl
  length-cancel_all test (o ∷ os) b = ap Prim.Native.Nat.suc (length-cancel_all test os _)

  -- The vector is `xs` and `ys'` after the children among `ys` are woken or cancelled.
  pub record Tended (k : ℕ) (b b' : Broker W) (xs ys ys' : List (Order W)) : Type 0 where
    pub pending : b'.pending_orders ≡ xs ++ ys'
    pub len : length ys' ≡ length ys
    pub in_order : InOrder k ys'
    pub mirrored : AllMirrored b'.all_orders ys'
    pub below : (j : ℕ) → j ≤ k → find_order j b'.all_orders ≡ find_order j b.all_orders
    pub frozen : Frozen b.all_orders b'.all_orders
    pub same_ids : ids b'.all_orders ≡ ids b.all_orders
    pub next_id : b'.next_order_id ≡ b.next_order_id

  abbrev woken : Order W → List (Order W) → List (Order W)
  woken o ys = if is_completed o.status && has_children o then activate o.id ys else ys

  woken-skip :
      (o : Order W) (xs ys : List (Order W))
      → NoChild o.id xs
      → woken o (xs ++ ys) ≡ xs ++ woken o ys
  woken-skip o xs ys h = ground (arith, activate-skip o.id xs ys h)

  woken-InOrder :
      (o : Order W) (k : ℕ) (ys : List (Order W)) → InOrder k ys → InOrder k (woken o ys)
  woken-InOrder o k ys h = elim (Bool-cases (is_completed o.status && has_children o)) [
    | inl e ↦ rw e (activate-InOrder o.id k ys h)
    | inr e ↦ rw e h
  ]

  woken-mirrored :
      (o : Order W) (book ys : List (Order W)) → AllMirrored book ys → AllMirrored book (woken o ys)
  woken-mirrored o book ys h = elim (Bool-cases (is_completed o.status && has_children o)) [
    | inl e ↦ rw e (activate-mirrored o.id book ys h)
    | inr e ↦ rw e h
  ]

  length-woken : (o : Order W) (ys : List (Order W)) → length (woken o ys) ≡ length ys
  length-woken o ys = ground (arith, length-activate o.id ys)

  pub tend-Tended :
      (o : Order W) (b : Broker W) (xs ys : List (Order W))
      → b.pending_orders ≡ xs ++ ys
      → NoChild o.id xs
      → InOrder o.id ys
      → AllMirrored b.all_orders ys
      → (ys' : List (Order W)) × Tended o.id b (tend_children o b) xs ys ys'
  unfolding tend_children
  tend-Tended o b xs ys e none h m =
      let test : Order W → Bool = λ c. c.parent_id == o.id in
      let up = woken o ys in
      let split : woken o b.pending_orders ≡ xs ++ up = ap (woken o) e ∙ woken-skip o xs ys none in
      let c =
        cancel_all-Cancelled test o.id up b (woken-InOrder o o.id ys h)
          (woken-mirrored o b.all_orders ys m) in
      let skip = cancel_all-skip o.id xs up b none in
      elim (Bool-cases ((o.parent_id == 0) && has_children o && is_failed o.status)) [
        | inl fails ↦ (
          (cancel_all test up b).1,
          rw (fails, split, skip)
              (record {
                pending = refl;
                len = length-cancel_all test up b ∙ length-woken o ys;
                in_order = c.in_order;
                mirrored = c.mirrored;
                below = c.below;
                frozen = c.frozen;
                same_ids = c.same_ids;
                next_id = c.next_id;
              }),
        )
        | inr fine ↦ (
          up,
          rw fine (record {
            pending = split;
            len = length-woken o ys;
            in_order = woken-InOrder o o.id ys h;
            mirrored = woken-mirrored o b.all_orders ys m;
            below = λ j l. refl;
            frozen = λ j s found dead. found;
            same_ids = refl;
            next_id = refl;
          }),
        )
      ]
