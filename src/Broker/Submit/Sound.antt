-- ===== src/Broker/Submit/Sound.antt =====
-- Submission keeps the order book in step and touches no order of it.
use strat_forge.Common.{
  ℕ, suc, false, List, [], ◌∷◌, ◌++◌, ◌≡◌, refl, sym, subst, arith, All, All-append, All-imp,
  Bool-cases, inl, inr, ◌∙◌, ◌==◌, ◌<◌, ◌≤◌, ◌⊎◌,
}
use strat_forge.Double.{Double}
use strat_forge.Broker.Order.{Order, OrderSide}
use strat_forge.Broker.State.{Broker, find_order}
use strat_forge.Broker.State.Books.{ids, IsMirrored}
use strat_forge.Broker.Submit.{OrderParams, submit_order_ext, ask_hook, new_order}
use strat_forge.Broker.Submit.Numbering.{Numbered, find_above, found-Numbered, find-snoc}
use strat_forge.Broker.Process.Cancels.{InOrder, AllMirrored, Frozen, mirrored-congr}
use strat_forge.Broker.Process.Frozen.{IsInStep}

module _ {W : Type 0} where
  numbered→ids :
      (n : ℕ) (os : List (Order W)) → Numbered n os → All (λ i. (0 < i) × (i < n)) (ids os)
  numbered→ids n [] h = tt
  numbered→ids n (o ∷ os) h = (h.0, numbered→ids n os h.1)

  ids→numbered :
      (n : ℕ) (os : List (Order W)) → All (λ i. (0 < i) × (i < n)) (ids os) → Numbered n os
  ids→numbered n [] h = tt
  ids→numbered n (o ∷ os) h = (h.0, ids→numbered n os h.1)

  pub Numbered-congr :
      (n : ℕ) (os os' : List (Order W)) → ids os' ≡ ids os → Numbered n os → Numbered n os'
  Numbered-congr n os os' e h =
      ids→numbered n os' (subst (λ l. All (λ i. (0 < i) × (i < n)) l) (sym e) (numbered→ids n os h))

  Numbered-raise : (n m : ℕ) (os : List (Order W)) → Numbered n os → n ≤ m → Numbered m os
  Numbered-raise n m os h l = All-imp os (λ o v. (v.0, omega (arith, v.1))) h

  InOrder-append :
      (n : ℕ) (os : List (Order W)) (o : Order W)
      → InOrder n os
      → All (λ x. x.id < o.id) os
      → n < o.id
      → o.parent_id < o.id
      → InOrder n (os ++ (o ∷ []))
  InOrder-append n [] o h b l p = (l, p, tt)
  InOrder-append n (x ∷ os) o h b l p = (h.0, h.1, InOrder-append x.id os o h.2 b.1 b.0 p)

  pending-below :
      (n : ℕ) (bk os : List (Order W)) → Numbered n bk → AllMirrored bk os → All (λ x. x.id < n) os
  pending-below n bk [] h m = tt
  pending-below n bk (o ∷ os) h m =
      ((found-Numbered n o.id bk o.status h m.0).1, pending-below n bk os h m.1)

  append-same :
      (n : ℕ) (bk os : List (Order W)) (o : Order W)
      → Numbered n bk
      → o.id ≡ n
      → All (λ x. x.id < n) os
      → All (λ x. find_order x.id (bk ++ (o ∷ [])) ≡ find_order x.id bk) os
  append-same n bk os o h e b = All-imp os (λ x v. find-snoc n x.id bk o h e ∙ rw (not_self x v)) b
    where
      not_self : (x : Order W) → x.id < n → (n == x.id) ≡ false
      not_self x v = ground arith

module _ {W : Type 0} ⦃d : Double W⦄ where
  -- The book is in step, and ids are positive and below the next one.
  pub record IsSound (b : Broker W) : Type 0 where
    pub in_step : IsInStep b
    pub numbered : Numbered b.next_order_id b.all_orders
    pub next_pos : 0 < b.next_order_id

  abbrev pub Sends : Broker W → Broker W → Type 0
  Sends b b' = IsSound b' × Frozen b.all_orders b'.all_orders

  append-Sends :
      (b b' : Broker W) (o : Order W)
      → IsSound b
      → o.id ≡ b.next_order_id
      → o.parent_id < b.next_order_id
      → b'.all_orders ≡ b.all_orders ++ (o ∷ [])
      → b'.pending_orders ≡ b.pending_orders ++ (o ∷ [])
      → b'.next_order_id ≡ suc b.next_order_id
      → Sends b b'
  append-Sends b b' o v e parent all pending next =
      let n = b.next_order_id in
      let below = pending-below n b.all_orders b.pending_orders v.numbered v.in_step.mirrored in
      let book' = b.all_orders ++ (o ∷ []) in
      (
        record {
          in_step = record {
            in_order = rw pending (
                InOrder-append 0 b.pending_orders o v.in_step.in_order (rw e below)
                  (omega (arith, v.next_pos)) (rw e parent));
            mirrored =
                rw (all, pending)
                  (All-append (IsMirrored book') b.pending_orders (o ∷ [])
                    (mirrored-congr b.all_orders book' b.pending_orders
                      (append-same n b.all_orders b.pending_orders o v.numbered e below)
                      v.in_step.mirrored)
                    (new_mirrored, tt));
          };
          numbered =
              rw (all, next)
                (All-append (λ x. (0 < x.id) × (x.id < suc n)) b.all_orders (o ∷ [])
                  (Numbered-raise n (suc n) b.all_orders v.numbered (omega arith))
                  ((omega (arith, v.next_pos), omega arith), tt));
          next_pos = omega arith;
        },
        λ j s found dead. rw all (
            ground (
              arith,
              find-snoc n j b.all_orders o v.numbered e,
              find_above n j b.all_orders v.numbered,
            )),
      )
    where
      new_mirrored : IsMirrored (b.all_orders ++ (o ∷ [])) o
      new_mirrored = ground (arith, find-snoc b.next_order_id o.id b.all_orders o v.numbered e)

  pub same-Sends :
      (b b' : Broker W)
      → b'.all_orders ≡ b.all_orders
      → b'.pending_orders ≡ b.pending_orders
      → b'.next_order_id ≡ b.next_order_id
      → IsSound b
      → Sends b b'
  same-Sends b b' a p n v = (
    record {
      in_step = record {
        in_order = rw p v.in_step.in_order;
        mirrored = rw (a, p) v.in_step.mirrored;
      };
      numbered = rw (a, n) v.numbered;
      next_pos = rw n v.next_pos;
    },
    λ j s found dead. rw a found,
  )

  pub Sends-trans : (a b c : Broker W) → Sends a b → Sends b c → Sends a c
  Sends-trans a b c p q = (q.0, λ j s found dead. q.1 j s (p.1 j s found dead) dead)

  pub submit-Sends :
      (side : OrderSide) (size : W) (params : OrderParams W) (b : Broker W)
      → params.parent_id < b.next_order_id
      → IsSound b
      → Sends b (submit_order_ext side size params b).0
  unfolding submit_order_ext
  submit-Sends side size params b parent v =
      let por = ask_hook side size params.data_index b in
      elim (Bool-cases por.rejected) [
        | inl no_order ↦ rw no_order (v, λ j s found dead. found)
        | inr taken ↦ rw taken (
            append-Sends b _ (new_order b.next_order_id side por params) v refl parent refl refl
              refl)
      ]

  -- The id that is returned is 0, or the next one; it is below the next one after.
  pub submit-id :
      (side : OrderSide) (size : W) (params : OrderParams W) (b : Broker W)
      → 0 < b.next_order_id
      → let (b', i) = submit_order_ext side size params b in
        ((i ≡ 0) ⊎ (i ≡ b.next_order_id))
        × (i < b'.next_order_id)
        × (b.next_order_id ≤ b'.next_order_id)
  unfolding submit_order_ext
  submit-id side size params b h = ground arith
