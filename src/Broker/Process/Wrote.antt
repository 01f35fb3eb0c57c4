-- ===== src/Broker/Process/Wrote.antt =====
-- Writes of one order to the book of include/stratforge/broker/broker.hpp leave all others alone.
use strat_forge.Common.{ℕ, false, ◌≡◌, refl, arith, ◌∙◌, ◌==◌}
use strat_forge.Double.{Double}
use strat_forge.Broker.Order.{Order}
use strat_forge.Broker.State.{Broker, find_order, store, notify_order}
use strat_forge.Broker.State.Books.{find-store, ids, ids-store, IsMirrored}

module _ {W : Type 0} ⦃d : Double W⦄ where
  -- `b'` is `b` after writes of versions of the order `o` that end in `o'`: `o'` keeps the id and
  -- the links of `o` and is mirrored; no other id is touched, and no order comes or goes.
  pub record Wrote (b : Broker W) (o : Order W) (b' : Broker W) (o' : Order W) : Type 0 where
    pub id : o'.id ≡ o.id
    pub parent_id : o'.parent_id ≡ o.parent_id
    pub mirrored : IsMirrored b'.all_orders o'
    pub others :
        (j : ℕ) → (o.id == j) ≡ false → find_order j b'.all_orders ≡ find_order j b.all_orders
    pub pending : b'.pending_orders ≡ b.pending_orders
    pub same_ids : ids b'.all_orders ≡ ids b.all_orders
    pub next_id : b'.next_order_id ≡ b.next_order_id

  pub Wrote-refl : (b : Broker W) (o : Order W) → IsMirrored b.all_orders o → Wrote b o b o
  Wrote-refl b o m = record {
    id = refl;
    parent_id = refl;
    mirrored = m;
    others = λ j h. refl;
    pending = refl;
    same_ids = refl;
    next_id = refl;
  }

  pub Wrote-trans :
      {b b' b'' : Broker W} {o o' o'' : Order W}
      → Wrote b o b' o'
      → Wrote b' o' b'' o''
      → Wrote b o b'' o''
  Wrote-trans {b} {b'} {b''} {o} {o'} {o''} p q = record {
    id = q.id ∙ p.id;
    parent_id = q.parent_id ∙ p.parent_id;
    mirrored = q.mirrored;
    others = λ j h. q.others j (rw p.id h) ∙ p.others j h;
    pending = q.pending ∙ p.pending;
    same_ids = q.same_ids ∙ p.same_ids;
    next_id = q.next_id ∙ p.next_id;
  }

  pub notify-Wrote :
      {b b' : Broker W} {o o' : Order W} (x : Order W)
      → Wrote b o b' o'
      → Wrote b o (notify_order x b') o'
  unfolding notify_order
  notify-Wrote x w = record {
    id = w.id;
    parent_id = w.parent_id;
    mirrored = w.mirrored;
    others = w.others;
    pending = w.pending;
    same_ids = w.same_ids;
    next_id = w.next_id;
  }

  pub store-Wrote :
      (b : Broker W) (o o' : Order W) (b' : Broker W)
      → IsMirrored b.all_orders o
      → o'.id ≡ o.id
      → o'.parent_id ≡ o.parent_id
      → b'.all_orders ≡ store o' b.all_orders
      → b'.pending_orders ≡ b.pending_orders
      → b'.next_order_id ≡ b.next_order_id
      → Wrote b o b' o'
  store-Wrote b o o' b' m e f w p n = record {
    id = e;
    parent_id = f;
    mirrored = rw w (ground (arith, find-store o' o'.id b.all_orders));
    others = λ j h. rw (w, find-store o' j b.all_orders, e, h);
    pending = p;
    same_ids = rw w (ids-store o' b.all_orders);
    next_id = n;
  }
