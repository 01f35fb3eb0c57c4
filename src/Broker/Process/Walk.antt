-- ===== src/Broker/Process/Walk.antt =====
-- The walk over the pending orders: the order book mirrors what is still to come and what stays.
use strat_forge.Common.{
  ℕ, List, [], ◌∷◌, ◌++◌, ◌≡◌, refl, arith, All-append, All-imp, Bool-cases, inl, inr, ◌∙◌, ◌<◌,
  ◌≤◌, length, set,
}
use strat_forge.Double.{Double}
use strat_forge.Broker.Order.{Order}
use strat_forge.Broker.State.{Broker, find_order}
use strat_forge.Broker.State.Books.{ids, IsMirrored}
use strat_forge.Broker.Process.{Pass, Handled, book, tend_children, filled_group}
use strat_forge.Broker.Process.Wrote.{Wrote}
use strat_forge.Broker.Process.Cancels.{
  InOrder, AllMirrored, Frozen, mirrored-congr, above-mirrored,
}
use strat_forge.Broker.Process.Tend.{Tended, tend-Tended}
use strat_forge.Broker.Process.Places.{
  set-middle, snoc-middle, UpTo, InOrder-snoc, UpTo-NoChild, UpTo-raise,
}

module _ {W : Type 0} ⦃d : Double W⦄ where
  -- Where the walk stands: `done` is behind it, with ids up to `k`, and `rest` before it.
  pub record At (k : ℕ) (done rest : List (Order W)) (p : Pass W) : Type 0 where
    pub pending : p.broker.pending_orders ≡ done ++ rest
    pub behind : UpTo k done
    pub ahead : InOrder k rest
    pub rest_mirrored : AllMirrored p.broker.all_orders rest
    pub still_in_order : InOrder 0 p.still_pending
    pub still_behind : UpTo k p.still_pending
    pub still_mirrored : AllMirrored p.broker.all_orders p.still_pending

  pub below-mirrored :
      (book book' os : List (Order W)) (k : ℕ)
      → ((j : ℕ) → j ≤ k → find_order j book' ≡ find_order j book)
      → UpTo k os
      → AllMirrored book os
      → AllMirrored book' os
  below-mirrored book book' os k e u m =
      mirrored-congr book book' os (All-imp os (λ o v. e o.id v.0) u) m

  -- The order's versions are written, in the book and in the vector.
  pub written :
      (k : ℕ) (done rest : List (Order W)) (o : Order W) (h : Handled W) (p : Pass W)
      → At k done (o ∷ rest) p
      → Wrote p.broker o h.broker h.order
      → let hb = h.broker in
        At o.id (done ++ (h.order ∷ [])) rest (record p {
          broker = record hb { pending_orders = set hb.pending_orders (length done) h.order };
        })
  written k done rest o h p a w =
      let (lt, parent, ahead) = a.ahead in
      record {
        pending = rw w.pending (rw a.pending (set-middle done o h.order rest));
        behind =
            All-append (λ x. (x.id ≤ o.id) × (x.parent_id < x.id)) done (h.order ∷ [])
              (UpTo-raise k o.id done a.behind (omega arith))
              ((omega (arith, w.id), rw (w.id, w.parent_id) parent), tt);
        ahead = ahead;
        rest_mirrored =
            above-mirrored p.broker.all_orders h.broker.all_orders rest o.id w.others ahead
              a.rest_mirrored.1;
        still_in_order = a.still_in_order;
        still_behind = UpTo-raise k o.id p.still_pending a.still_behind (omega arith);
        still_mirrored =
            below-mirrored p.broker.all_orders h.broker.all_orders p.still_pending k
              (λ j l. w.others j (ground arith)) a.still_behind a.still_mirrored;
      }

  -- The order stays, as the last of those that stay.
  pushed :
      (k : ℕ) (done rest : List (Order W)) (o : Order W) (p : Pass W)
      → At o.id done rest p
      → UpTo k p.still_pending
      → k < o.id
      → o.parent_id < o.id
      → IsMirrored p.broker.all_orders o
      → At o.id done rest (record p { still_pending = p.still_pending ++ (o ∷ []) })
  pushed k done rest o p a u lt parent m = record {
    pending = a.pending;
    behind = a.behind;
    ahead = a.ahead;
    rest_mirrored = a.rest_mirrored;
    still_in_order = InOrder-snoc 0 k p.still_pending o a.still_in_order u (omega arith) lt parent;
    still_behind =
        All-append (λ x. (x.id ≤ o.id) × (x.parent_id < x.id)) p.still_pending (o ∷ [])
          a.still_behind ((omega arith, parent), tt);
    still_mirrored =
        All-append (IsMirrored p.broker.all_orders) p.still_pending (o ∷ []) a.still_mirrored
          (m, tt);
  }

  -- The order is done with, and its children are woken or cancelled.
  tended :
      (done rest rest' : List (Order W)) (o : Order W) (p : Pass W) (groups : List ℕ)
      → At o.id done rest p
      → Tended o.id p.broker (tend_children o p.broker) done rest rest'
      → At o.id done rest'
          (record p { broker = tend_children o p.broker; filled_oco_groups = groups })
  tended done rest rest' o p groups a t = record {
    pending = t.pending;
    behind = a.behind;
    ahead = t.in_order;
    rest_mirrored = t.mirrored;
    still_in_order = a.still_in_order;
    still_behind = a.still_behind;
    still_mirrored =
        below-mirrored p.broker.all_orders (tend_children o p.broker).all_orders p.still_pending
          o.id t.below a.still_behind a.still_mirrored;
  }

  -- What a step or the whole walk does to the book.
  pub record Kept (b b' : Broker W) : Type 0 where
    pub frozen : Frozen b.all_orders b'.all_orders
    pub same_ids : ids b'.all_orders ≡ ids b.all_orders
    pub next_id : b'.next_order_id ≡ b.next_order_id

  pub Kept-refl : (b : Broker W) → Kept b b
  Kept-refl b = record { frozen = λ j s f dead. f; same_ids = refl; next_id = refl }

  pub Kept-trans : {a b c : Broker W} → Kept a b → Kept b c → Kept a c
  Kept-trans p q = record {
    frozen = λ j s f dead. q.frozen j s (p.frozen j s f dead) dead;
    same_ids = q.same_ids ∙ p.same_ids;
    next_id = q.next_id ∙ p.next_id;
  }

  abbrev pub Stepped : ℕ → List (Order W) → List (Order W) → Pass W → Pass W → Type 0
  Stepped k done rest p p' =
      (o : Order W) × (rest' : List (Order W)) × At k (done ++ (o ∷ [])) rest' p'
      × (length rest' ≡ length rest)
      × Kept p.broker p'.broker

  pub passed :
      (k : ℕ) (done rest : List (Order W)) (o : Order W) (p : Pass W)
      → At k done (o ∷ rest) p
      → At o.id (done ++ (o ∷ [])) rest p
  passed k done rest o p a =
      let (lt, parent, ahead) = a.ahead in
      record {
        pending = a.pending ∙ snoc-middle done o rest;
        behind =
            All-append (λ x. (x.id ≤ o.id) × (x.parent_id < x.id)) done (o ∷ [])
              (UpTo-raise k o.id done a.behind (omega arith)) ((omega arith, parent), tt);
        ahead = ahead;
        rest_mirrored = a.rest_mirrored.1;
        still_in_order = a.still_in_order;
        still_behind = UpTo-raise k o.id p.still_pending a.still_behind (omega arith);
        still_mirrored = a.still_mirrored;
      }

  -- The bookkeeping of a handled order, `b` being the broker with the order written back.
  pub booked :
      (k : ℕ) (done rest : List (Order W)) (h : Handled W) (p : Pass W) (b : Broker W)
      → At h.order.id (done ++ (h.order ∷ [])) rest (record p { broker = b })
      → UpTo k p.still_pending
      → k < h.order.id
      → h.order.parent_id < h.order.id
      → IsMirrored b.all_orders h.order
      → let hb = h.broker in
        b ≡ record hb { pending_orders = set hb.pending_orders (length done) h.order }
        → (rest' : List (Order W)) × At h.order.id
            (done ++ (h.order ∷ []))
            rest'
            (book (length done) h p)
          × (length rest' ≡ length rest)
          × Kept b (book (length done) h p).broker
  unfolding book
  booked k done rest h p b a u lt parent m e = elim (Bool-cases h.stays) [
    | inl stays ↦ (
      rest,
      rw (stays, book, ← e)
          (pushed k (done ++ (h.order ∷ [])) rest h.order (record p { broker = b }) a u lt parent
            m),
      refl,
      rw (stays, book, ← e) (Kept-refl b),
    )
    | inr goes ↦ elim (Bool-cases h.done) [
      | inl ends ↦
          let xs = done ++ (h.order ∷ []) in
          let (rest', t) =
            tend-Tended h.order b xs rest a.pending
              (UpTo-NoChild h.order.id h.order.id xs a.behind (omega arith)) a.ahead
              a.rest_mirrored in
          (
            rest',
            rw (goes, ends, book, ← e)
                (tended xs rest rest' h.order (record p { broker = b })
                  (p.filled_oco_groups ++ filled_group h.order) a t),
            t.len,
            rw (goes, ends, book, ← e)
                (record { frozen = t.frozen; same_ids = t.same_ids; next_id = t.next_id }),
          )
      | inr drops ↦
          (rest, rw (goes, drops, book, ← e) a, refl, rw (goes, drops, book, ← e) (Kept-refl b))
    ]
  ]
