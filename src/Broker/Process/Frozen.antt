-- ===== src/Broker/Process/Frozen.antt =====
-- A whole pass: the order book stays in step with the pending orders, and an order that it holds in
-- a terminal status is never touched again.
use strat_forge.Common.{
  false, ℕ, zero, suc, Bool, true, List, [], ◌∷◌, ◌++◌, ◌≡◌, refl, subst, arith, Bool-cases, inl,
  inr, ◌≤◌, length, length-append, get_elem?, set, some, keep_if,
}
use strat_forge.Double.{Double}
use strat_forge.Broker.Order.{Order, is_alive}
use strat_forge.Broker.State.{find_order, Broker, Feed}
use strat_forge.Broker.Submit.{cancel_all}
use strat_forge.Broker.Process.{
  Pass, handle, book, step_at, walk, close_groups, in_groups, process_orders, start_pass,
}
use strat_forge.Broker.Process.Handle.{handle-Wrote}
use strat_forge.Broker.Process.Cancels.{InOrder, AllMirrored, Wrote-Frozen, cancel_all-Cancelled}
use strat_forge.Broker.Process.Walk.{
  At, Kept, Kept-refl, Kept-trans, Stepped, passed, booked, written,
}
use strat_forge.Broker.Process.Places.{get-middle}

module _ {W : Type 0} ⦃d : Double W⦄ where
  -- The book of orders is in step with the pending orders: these stand in the order of their ids,
  -- each younger than its parent, and the book holds the status of each.
  pub record IsInStep (b : Broker W) : Type 0 where
    pub in_order : InOrder 0 b.pending_orders
    pub mirrored : AllMirrored b.all_orders b.pending_orders

  live_step :
      (fs : List (Feed W)) (k : ℕ) (done rest : List (Order W)) (o : Order W) (p : Pass W)
      → At k done (o ∷ rest) p
      → is_alive o ≡ true
      → Stepped o.id done rest p (book (length done) (handle o fs p.broker) p)
  live_step fs k done rest o p a live =
      let h = handle o fs p.broker in
      let hb = h.broker in
      let b : Broker W = record hb {
        pending_orders = set hb.pending_orders (length done) h.order;
      } in
      let w = handle-Wrote o fs p.broker a.rest_mirrored.0 in
      let (lt, parent, _) = a.ahead in
      let (rest', at, len, kept) =
        booked k done rest h p b (rw w.id (written k done rest o h p a w)) a.still_behind
          (rw w.id lt) (rw (w.id, w.parent_id) parent) w.mirrored refl in
      (
        h.order,
        rest',
        subst (λ i. At i (done ++ (h.order ∷ [])) rest' (book (length done) h p)) w.id at,
        len,
        Kept-trans
            (record {
              frozen = Wrote-Frozen w a.rest_mirrored.0 live;
              same_ids = w.same_ids;
              next_id = w.next_id;
            })
            kept,
      )

  step_at-Stepped :
      (fs : List (Feed W)) (k : ℕ) (done rest : List (Order W)) (o : Order W) (p : Pass W)
      → At k done (o ∷ rest) p
      → Stepped o.id done rest p (step_at fs (length done) p)
  unfolding step_at
  step_at-Stepped fs k done rest o p a =
      let here : get_elem? p.broker.pending_orders (length done) ≡ some o =
        rw a.pending (get-middle done o rest) in
      elim (Bool-cases (is_alive o)) [
        | inl live ↦ rw (here, step_at, live) (live_step fs k done rest o p a live)
        | inr dead ↦
            rw (here, step_at, dead) (o, rest, passed k done rest o p a, refl, Kept-refl p.broker)
      ]

  abbrev Walked : Pass W → Pass W → Type 0
  Walked p p' = (k : ℕ) × (done : List (Order W)) × At k done [] p' × Kept p.broker p'.broker

  walk-Walked :
      (fs : List (Feed W)) (n k : ℕ) (done rest : List (Order W)) (p : Pass W)
      → At k done rest p
      → length rest ≡ n
      → Walked p (walk fs n (length done) p)
  unfolding walk
  walk-Walked fs zero k done [] p a e = (k, done, a, Kept-refl p.broker)
  walk-Walked fs zero k done (o ∷ rest) p a e = absurd (omega arith)
  walk-Walked fs (suc n) k done [] p a e = absurd (omega arith)
  walk-Walked fs (suc n) k done (o ∷ rest) p a e =
      let (o', rest', at, len, kept) = step_at-Stepped fs k done rest o p a in
      let there : length (done ++ (o' ∷ [])) ≡ suc (length done) =
        omega (arith, length-append done (o' ∷ [])) in
      let (k', done', last, kept') =
        walk-Walked fs n o.id (done ++ (o' ∷ [])) rest' (step_at fs (length done) p) at
          (omega (arith, len)) in
      let q = λ (i : ℕ). walk fs n i (step_at fs (length done) p) in
      (
        k',
        done',
        subst (λ i. At k' done' [] (q i)) there last,
        Kept-trans kept
            (subst (λ i. Kept (step_at fs (length done) p).broker (q i).broker) there kept'),
      )

  keep_if-mirrored :
      (test : Order W → Bool) (bk os : List (Order W))
      → AllMirrored bk os
      → AllMirrored bk (keep_if test os)
  keep_if-mirrored test bk [] m = tt
  keep_if-mirrored test bk (o ∷ os) m = ground (arith, keep_if-mirrored test bk os m.1)

  InOrder-weaken : (m n : ℕ) (os : List (Order W)) → InOrder m os → n ≤ m → InOrder n os
  InOrder-weaken m n [] h l = tt
  InOrder-weaken m n (o ∷ os) h l = (omega arith, h.1, h.2)

  keep_if-InOrder :
      (test : Order W → Bool) (n : ℕ) (os : List (Order W))
      → InOrder n os
      → InOrder n (keep_if test os)
  keep_if-InOrder test n [] h = tt
  keep_if-InOrder test n (o ∷ os) h = ground (
    arith,
    keep_if-InOrder test o.id os h.2,
    InOrder-weaken o.id n (keep_if test os) (keep_if-InOrder test o.id os h.2),
  )

  close_groups-IsInStep :
      (gs : List ℕ) (still : List (Order W)) (b : Broker W)
      → InOrder 0 still
      → AllMirrored b.all_orders still
      → IsInStep (close_groups gs still b) × Kept b (close_groups gs still b)
  unfolding close_groups
  close_groups-IsInStep [] still b h m = (
    record { in_order = h; mirrored = m },
    record { frozen = λ j s f dead. f; same_ids = refl; next_id = refl },
  )
  close_groups-IsInStep (g ∷ gs) still b h m =
      let c = cancel_all-Cancelled (in_groups (g ∷ gs)) 0 still b h m in
      let (b', left) = cancel_all (in_groups (g ∷ gs)) still b in
      (
        record {
          in_order = keep_if-InOrder is_alive 0 left c.in_order;
          mirrored = keep_if-mirrored is_alive b'.all_orders left c.mirrored;
        },
        record { frozen = c.frozen; same_ids = c.same_ids; next_id = c.next_id },
      )

  pub process_orders-Kept :
      (fs : List (Feed W)) (b : Broker W)
      → IsInStep b
      → IsInStep (process_orders fs b) × Kept b (process_orders fs b)
  unfolding process_orders
  process_orders-Kept fs b v =
      let start : At 0 [] b.pending_orders (start_pass b) = record {
        pending = refl;
        behind = tt;
        ahead = v.in_order;
        rest_mirrored = v.mirrored;
        still_in_order = tt;
        still_behind = tt;
        still_mirrored = tt;
      } in
      let (k, done, a, kept) =
        walk-Walked fs (length b.pending_orders) 0 [] b.pending_orders (start_pass b) start refl in
      let p = walk fs (length b.pending_orders) 0 (start_pass b) in
      let (ok, kept') =
        close_groups-IsInStep p.filled_oco_groups p.still_pending p.broker a.still_in_order
          a.still_mirrored in
      (ok, Kept-trans kept kept')

  -- When pending orders stand in the order of their ids, each younger than its parent, and the book
  -- holds the status of each, it is so after a pass; and an order that the book holds in a terminal
  -- status before the pass is found in the book unchanged after it.
  pub process_orders_frozen :
      (fs : List (Feed W)) (b : Broker W) (j : ℕ) (s : Order W)
      → IsInStep b
      → find_order j b.all_orders ≡ some s
      → is_alive s ≡ false
      → IsInStep (process_orders fs b) × (find_order j (process_orders fs b).all_orders ≡ some s)
  process_orders_frozen fs b j s v found dead =
      let (ok, kept) = process_orders-Kept fs b v in (ok, kept.frozen j s found dead)
