-- ===== src/Broker/Process/Alive.antt =====
-- A pass leaves only live orders pending.
use strat_forge.Common.{
  ℕ, zero, suc, true, false, List, [], ◌∷◌, ◌≡◌, arith, All, All-append, keep_if, get_elem?,
  Bool-cases, inl, inr, Option-cases, length,
}
use strat_forge.Double.{Double}
use strat_forge.Broker.Order.{Order, is_alive, submit, accept}
use strat_forge.Broker.State.{Broker, Feed}
use strat_forge.Broker.Submit.{cancel_all}
use strat_forge.Broker.Fill.{try_fill_order, fill_at}
use strat_forge.Broker.Process.{
  Pass, Handled, handle, against_feed, attempt, acknowledge, update_trail_stop, book, step_at, walk,
  close_groups, process_orders, start_pass, in_groups,
}

module _ {W : Type 0} ⦃d : Double W⦄ where
  -- An attempt that returns false leaves the order and the broker as they were.
  pub try_fill-waits :
      (b : Broker W) (o : Order W) (f : Feed W)
      → (try_fill_order b o f).2 ≡ false
      → try_fill_order b o f ≡ (b, o, false)
  unfolding try_fill_order fill_at
  try_fill-waits b o f h = ground arith

  acknowledge-alive :
      (o : Order W) (b : Broker W) → is_alive o ≡ true → is_alive (acknowledge o b).1 ≡ true
  unfolding acknowledge submit accept
  acknowledge-alive o b h = ground arith

  attempt-alive :
      (o : Order W) (f : Feed W) (b : Broker W)
      → is_alive o ≡ true
      → (attempt o f b).stays ≡ true
      → is_alive (attempt o f b).order ≡ true
  unfolding attempt update_trail_stop
  attempt-alive o f b h k = ground (arith, try_fill-waits b o f)

  against_feed-alive :
      (o : Order W) (fs : List (Feed W)) (b : Broker W)
      → is_alive o ≡ true
      → (against_feed o fs b).stays ≡ true
      → is_alive (against_feed o fs b).order ≡ true
  unfolding against_feed
  against_feed-alive o fs b h k = elim (Option-cases (get_elem? fs o.data_index)) [
    | inl e ↦ absurd (ground arith)
    | inr (f, e) ↦
        ground
          (arith, acknowledge-alive o b, attempt-alive (acknowledge o b).1 f (acknowledge o b).0)
  ]

  handle-alive :
      (o : Order W) (fs : List (Feed W)) (b : Broker W)
      → is_alive o ≡ true
      → (handle o fs b).stays ≡ true
      → is_alive (handle o fs b).order ≡ true
  unfolding handle
  handle-alive o fs b h k =
      ground (
        arith,
        against_feed-alive o fs b h,
        against_feed-alive (record o { transmit = true }) fs b h,
      )

  abbrev pub AllAlive : List (Order W) → Type 0
  AllAlive = All λ o. is_alive o ≡ true

  book-alive :
      (i : ℕ) (h : Handled W) (p : Pass W)
      → (h.stays ≡ true → is_alive h.order ≡ true)
      → AllAlive p.still_pending
      → AllAlive (book i h p).still_pending
  unfolding book
  book-alive i h p live a = elim (Bool-cases h.stays) [
    | inl e ↦
        rw (e, book)
          (All-append (λ o. is_alive o ≡ true) p.still_pending (h.order ∷ []) a (live e, tt))
    | inr e ↦ rw (e, book) (ground arith)
  ]

  step_at-alive :
      (fs : List (Feed W)) (i : ℕ) (p : Pass W)
      → AllAlive p.still_pending
      → AllAlive (step_at fs i p).still_pending
  unfolding step_at
  step_at-alive fs i p a = elim (Option-cases (get_elem? p.broker.pending_orders i)) [
    | inl e ↦ rw (e, step_at) a
    | inr (o, e) ↦ elim (Bool-cases (is_alive o)) [
      | inl h ↦
          rw (e, step_at, h)
            (book-alive i (handle o fs p.broker) p (handle-alive o fs p.broker h) a)
      | inr h ↦ rw (e, step_at, h) a
    ]
  ]

  walk-alive :
      (fs : List (Feed W)) (n i : ℕ) (p : Pass W)
      → AllAlive p.still_pending
      → AllAlive (walk fs n i p).still_pending
  unfolding walk
  walk-alive fs zero i p a = a
  walk-alive fs (suc n) i p a = walk-alive fs n (suc i) (step_at fs i p) (step_at-alive fs i p a)

  keep_if-alive : (os : List (Order W)) → AllAlive (keep_if is_alive os)
  keep_if-alive [] = tt
  keep_if-alive (o ∷ os) = ground (arith, keep_if-alive os)

  close_groups-alive :
      (gs : List ℕ) (still : List (Order W)) (b : Broker W)
      → AllAlive still
      → AllAlive (close_groups gs still b).pending_orders
  unfolding close_groups
  close_groups-alive [] still b a = a
  close_groups-alive (g ∷ gs) still b a = keep_if-alive (cancel_all (in_groups (g ∷ gs)) still b).1

  -- After a pass every pending order is alive, whatever the orders and the feeds were.
  pub process_orders-alive :
      (fs : List (Feed W)) (b : Broker W) → AllAlive (process_orders fs b).pending_orders
  unfolding process_orders
  process_orders-alive fs b =
      let p = walk fs (length b.pending_orders) 0 (start_pass b) in
      close_groups-alive p.filled_oco_groups p.still_pending p.broker
        (walk-alive fs (length b.pending_orders) 0 (start_pass b) tt)
