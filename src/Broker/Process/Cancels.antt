-- ===== src/Broker/Process/Cancels.antt =====
-- Cancelling among pending orders, and waking the children of a bracket.
use strat_forge.Common.{
  ℕ, Bool, true, false, ◌&&◌, List, [], ◌∷◌, ◌≡◌, refl, arith, some, All, Bool-cases, inl, inr, ◌∙◌,
  ◌==◌, ◌<◌, ◌≤◌,
}
use strat_forge.Double.{Double}
use strat_forge.Broker.Order.{Order, is_alive, cancel}
use strat_forge.Broker.State.{Broker, find_order, sync_order, notify_order}
use strat_forge.Broker.State.Books.{ids, IsMirrored}
use strat_forge.Broker.Submit.{cancel_all}
use strat_forge.Broker.Process.Wrote.{Wrote, Wrote-refl, store-Wrote}

module _ {W : Type 0} where
  -- Ids rise from above `n`, and a parent is older than its children.
  abbrev pub InOrder : ℕ → List (Order W) → Type 0
  InOrder n [] = Unit
  InOrder n (o ∷ os) = (n < o.id) × (o.parent_id < o.id) × InOrder o.id os

  abbrev pub AllMirrored : List (Order W) → List (Order W) → Type 0
  AllMirrored book = All (IsMirrored book)

  -- Orders that the first book holds in a terminal status stand unchanged in the second.
  abbrev pub Frozen : List (Order W) → List (Order W) → Type 0
  Frozen book book' =
      (j : ℕ) (s : Order W)
      → find_order j book ≡ some s
      → is_alive s ≡ false
      → find_order j book' ≡ some s

  IsMirrored-of_same :
      (book book' : List (Order W)) (o : Order W)
      → find_order o.id book' ≡ find_order o.id book
      → IsMirrored book o
      → IsMirrored book' o
  IsMirrored-of_same book book' o e m = ground arith

  pub mirrored-congr :
      (book book' os : List (Order W))
      → All (λ o. find_order o.id book' ≡ find_order o.id book) os
      → AllMirrored book os
      → AllMirrored book' os
  mirrored-congr book book' [] e m = tt
  mirrored-congr book book' (o ∷ os) e m =
      (IsMirrored-of_same book book' o e.0 m.0, mirrored-congr book book' os e.1 m.1)

  -- A book that changes at or below `n` alone is the same for orders above `n`.
  pub above-same :
      (book book' os : List (Order W)) (n : ℕ)
      → ((j : ℕ) → (n == j) ≡ false → find_order j book' ≡ find_order j book)
      → InOrder n os
      → All (λ o. find_order o.id book' ≡ find_order o.id book) os
  above-same book book' [] n e h = tt
  above-same book book' (o ∷ os) n e h =
      (e o.id (ground arith), above-same book book' os n e (InOrder-weaken os h.2 h.0))
    where
      InOrder-weaken : {m : ℕ} (xs : List (Order W)) → InOrder m xs → n < m → InOrder n xs
      InOrder-weaken [] i l = tt
      InOrder-weaken (x ∷ xs) i l = (omega arith, i.1, i.2)

  pub above-mirrored :
      (book book' os : List (Order W)) (n : ℕ)
      → ((j : ℕ) → (n == j) ≡ false → find_order j book' ≡ find_order j book)
      → InOrder n os
      → AllMirrored book os
      → AllMirrored book' os
  above-mirrored book book' os n e h m =
      mirrored-congr book book' os (above-same book book' os n e h) m

module _ {W : Type 0} ⦃d : Double W⦄ where
  -- Writing a live order freezes what was terminal.
  pub Wrote-Frozen :
      {b b' : Broker W} {o o' : Order W}
      → Wrote b o b' o'
      → IsMirrored b.all_orders o
      → is_alive o ≡ true
      → Frozen b.all_orders b'.all_orders
  Wrote-Frozen {b} {b'} {o} {o'} w m live j s found dead = elim (Bool-cases (o.id == j)) [
    | inl same ↦ absurd (ground arith)
    | inr other ↦ w.others j other ∙ found
  ]

  -- What cancelling live orders among `os` leaves of them and of the book.
  pub record Cancelled (n : ℕ) (b b' : Broker W) (os' : List (Order W)) : Type 0 where
    pub in_order : InOrder n os'
    pub mirrored : AllMirrored b'.all_orders os'
    pub below : (j : ℕ) → j ≤ n → find_order j b'.all_orders ≡ find_order j b.all_orders
    pub frozen : Frozen b.all_orders b'.all_orders
    pub pending : b'.pending_orders ≡ b.pending_orders
    pub same_ids : ids b'.all_orders ≡ ids b.all_orders
    pub next_id : b'.next_order_id ≡ b.next_order_id

  cancel-Wrote :
      (o : Order W) (b : Broker W)
      → IsMirrored b.all_orders o
      → Wrote b o (notify_order (cancel o) (sync_order (cancel o) b)) (cancel o)
  unfolding cancel sync_order notify_order
  cancel-Wrote o b m = store-Wrote b o (cancel o) _ m refl refl refl refl refl

  -- The result for the tail, with the head written first (or kept, where nothing was written).
  cons-Cancelled :
      (n : ℕ) (b b1 b' : Broker W) (o o1 : Order W) (os' : List (Order W))
      → Wrote b o b1 o1
      → Frozen b.all_orders b1.all_orders
      → n < o.id
      → o.parent_id < o.id
      → Cancelled o.id b1 b' os'
      → Cancelled n b b' (o1 ∷ os')
  cons-Cancelled n b b1 b' o o1 os' w f lt parent c = record {
    in_order = (rw w.id lt, rw (w.parent_id, w.id) parent, rw w.id c.in_order);
    mirrored = (
      IsMirrored-of_same b1.all_orders b'.all_orders o1 (c.below o1.id (omega (arith, w.id)))
          w.mirrored,
      c.mirrored,
    );
    below = λ j h. c.below j (omega arith) ∙ w.others j (ground arith);
    frozen = λ j s found dead. c.frozen j s (f j s found dead) dead;
    pending = c.pending ∙ w.pending;
    same_ids = c.same_ids ∙ w.same_ids;
    next_id = c.next_id ∙ w.next_id;
  }

  pub cancel_all-Cancelled :
      (test : Order W → Bool) (n : ℕ) (os : List (Order W)) (b : Broker W)
      → InOrder n os
      → AllMirrored b.all_orders os
      → let (b', os') = cancel_all test os b in Cancelled n b b' os'
  unfolding cancel_all
  cancel_all-Cancelled test n [] b h m = record {
    in_order = tt;
    mirrored = tt;
    below = λ j l. refl;
    frozen = λ j s found dead. found;
    pending = refl;
    same_ids = refl;
    next_id = refl;
  }
  cancel_all-Cancelled test n (o ∷ os) b (lt, parent, h) (m, ms) =
      elim (Bool-cases (test o && is_alive o)) [
        | inl hit ↦
            let b1 = notify_order (cancel o) (sync_order (cancel o) b) in
            let w = cancel-Wrote o b m in
            rw hit (
              cons-Cancelled n b b1 _ o (cancel o) _ w (Wrote-Frozen w m (ground arith)) lt parent (
                cancel_all-Cancelled test o.id os b1 h
                  (above-mirrored b.all_orders b1.all_orders os o.id w.others h ms)))
        | inr miss ↦ rw miss (
            cons-Cancelled n b b _ o o _ (Wrote-refl b o m) (λ j s found dead. found) lt parent
              (cancel_all-Cancelled test o.id os b h ms))
      ]
