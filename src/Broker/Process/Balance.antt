-- ===== src/Broker/Process/Balance.antt =====
-- A pass of `process_orders` of include/stratforge/broker/broker.hpp keeps each position equal to the
-- sum of the open trades of its feed.
use strat_forge.Common.{
  ℕ, zero, suc, Bool, true, List, [], ◌∷◌, ◌≡◌, refl, arith, Bool-cases, Option-cases, inl, inr,
  ◌==◌, ◌||◌, length, set, get_elem?,
}
use strat_forge.Double.{Double, IsExact}
use strat_forge.Broker.Order.{Order, is_alive, cancel, reject, expire}
use strat_forge.Broker.Trade.Granular.{IsGranular}
use strat_forge.Broker.State.{Broker, Feed, sync_order, notify_order, is_parent_filled}
use strat_forge.Broker.Submit.{cancel_all}
use strat_forge.Broker.Fill.{try_fill_order}
use strat_forge.Broker.Fill.Balance.{IsBalanced, same-IsBalanced, try_fill-IsBalanced}
use strat_forge.Broker.Process.{
  Pass, Handled, handle, against_feed, attempt, acknowledge, update_trail_stop, book, step_at, walk,
  close_groups, process_orders, start_pass, in_groups, tend_children, activate, is_trail, is_held,
  expired_at,
}

module _ {W : Type 0} ⦃d : Double W⦄ where
  -- Nothing was traded in between.
  pub record SameHoldings (b b' : Broker W) : Type 0 where
    pub trades : b'.open_trades ≡ b.open_trades
    pub positions : b'.positions ≡ b.positions

  pub held-IsBalanced : (b b' : Broker W) → SameHoldings b b' → IsBalanced b → IsBalanced b'
  held-IsBalanced b b' s v = same-IsBalanced b b' s.trades s.positions v

  pub cancel_all-holds :
      (test : Order W → Bool) (os : List (Order W)) (b : Broker W)
      → SameHoldings b (cancel_all test os b).0
  unfolding cancel_all sync_order notify_order
  cancel_all-holds test [] b = record { trades = refl; positions = refl }
  cancel_all-holds test (o ∷ os) b = ground (
    arith,
    cancel_all-holds test os b,
    cancel_all-holds test os (notify_order (cancel o) (sync_order (cancel o) b)),
  )

  acknowledge-holds : (o : Order W) (b : Broker W) → SameHoldings b (acknowledge o b).0
  unfolding acknowledge sync_order notify_order
  acknowledge-holds o b = ground arith

  trail-holds :
      (o : Order W) (f : Feed W) (b : Broker W) → SameHoldings b (update_trail_stop o f b).0
  unfolding update_trail_stop sync_order
  trail-holds o f b = ground arith

  tend-holds : (o : Order W) (b : Broker W) → SameHoldings b (tend_children o b)
  unfolding tend_children
  tend-holds o b = ground (
    arith,
    cancel_all-holds (λ c. c.parent_id == o.id) b.pending_orders b,
    cancel_all-holds (λ c. c.parent_id == o.id) (activate o.id b.pending_orders) b,
  )

  book-holds : (i : ℕ) (h : Handled W) (p : Pass W) → SameHoldings h.broker (book i h p).broker
  unfolding book
  book-holds i h p =
      let hb = h.broker in
      ground
        (arith, tend-holds h.order (record hb { pending_orders = set hb.pending_orders i h.order }))

  close_groups-holds :
      (gs : List ℕ) (still : List (Order W)) (b : Broker W)
      → SameHoldings b (close_groups gs still b)
  unfolding close_groups
  close_groups-holds [] still b = record { trades = refl; positions = refl }
  close_groups-holds (g ∷ gs) still b =
      let s = cancel_all-holds (in_groups (g ∷ gs)) still b in
      record { trades = s.trades; positions = s.positions }

  module _ (exact : IsExact W) (granular : IsGranular W) where
    attempt-IsBalanced :
        (o : Order W) (f : Feed W) (b : Broker W) → IsBalanced b → IsBalanced (attempt o f b).broker
    unfolding attempt notify_order
    attempt-IsBalanced o f b v =
        let v1 = try_fill-IsBalanced exact granular b o f v in
        let b1 = (try_fill_order b o f).0 in
        let o1 = (try_fill_order b o f).1 in
        elim (Bool-cases (try_fill_order b o f).2) [
          | inl e ↦ rw e (same-IsBalanced b1 _ refl refl v1)
          | inr e ↦ elim (Bool-cases (is_trail o.type)) [
            | inl t ↦ rw (e, t) (held-IsBalanced b1 _ (trail-holds o1 f b1) v1)
            | inr t ↦ rw (e, t) v1
          ]
        ]

    against_feed-IsBalanced :
        (o : Order W) (fs : List (Feed W)) (b : Broker W)
        → IsBalanced b
        → IsBalanced (against_feed o fs b).broker
    unfolding against_feed sync_order notify_order
    against_feed-IsBalanced o fs b v =
        let dropped =
          λ (o' : Order W). same-IsBalanced b (notify_order o' (sync_order o' b)) refl refl v in
        elim (Option-cases (get_elem? fs o.data_index)) [
          | inl e ↦ rw (e, against_feed) (dropped (reject o))
          | inr (f, e) ↦ elim (Bool-cases ((f.size == 0) || (f.buflen == 0))) [
            | inl x ↦ rw (e, against_feed, x) v
            | inr x ↦ elim (Bool-cases (expired_at b.data_bar_index o)) [
              | inl y ↦ rw (e, against_feed, x, y) (dropped (expire o))
              | inr y ↦
                  rw (e, against_feed, x, y)
                    (attempt-IsBalanced (acknowledge o b).1 f (acknowledge o b).0
                      (held-IsBalanced b _ (acknowledge-holds o b) v))
            ]
          ]
        ]

    handle-IsBalanced :
        (o : Order W) (fs : List (Feed W)) (b : Broker W)
        → IsBalanced b
        → IsBalanced (handle o fs b).broker
    unfolding handle
    handle-IsBalanced o fs b v = elim (Bool-cases (is_held o)) [
      | inr free ↦ rw free (against_feed-IsBalanced o fs b v)
      | inl held ↦ elim (Bool-cases (is_parent_filled o.parent_id b.all_orders)) [
        | inl e ↦ rw (held, e) (against_feed-IsBalanced (record o { transmit = true }) fs b v)
        | inr e ↦ rw (held, e) v
      ]
    ]

    step_at-IsBalanced :
        (fs : List (Feed W)) (i : ℕ) (p : Pass W)
        → IsBalanced p.broker
        → IsBalanced (step_at fs i p).broker
    unfolding step_at
    step_at-IsBalanced fs i p v = elim (Option-cases (get_elem? p.broker.pending_orders i)) [
      | inl e ↦ rw (e, step_at) v
      | inr (o, e) ↦ elim (Bool-cases (is_alive o)) [
        | inl live ↦
            rw (e, step_at, live)
              (held-IsBalanced (handle o fs p.broker).broker _
                (book-holds i (handle o fs p.broker) p) (handle-IsBalanced o fs p.broker v))
        | inr dead ↦ rw (e, step_at, dead) v
      ]
    ]

    walk-IsBalanced :
        (fs : List (Feed W)) (n i : ℕ) (p : Pass W)
        → IsBalanced p.broker
        → IsBalanced (walk fs n i p).broker
    unfolding walk
    walk-IsBalanced fs zero i p v = v
    walk-IsBalanced fs (suc n) i p v =
        walk-IsBalanced fs n (suc i) (step_at fs i p) (step_at-IsBalanced fs i p v)

    pub process_orders-IsBalanced :
        (fs : List (Feed W)) (b : Broker W) → IsBalanced b → IsBalanced (process_orders fs b)
    unfolding process_orders
    process_orders-IsBalanced fs b v =
        let p = walk fs (length b.pending_orders) 0 (start_pass b) in
        held-IsBalanced p.broker _ (close_groups-holds p.filled_oco_groups p.still_pending p.broker)
          (walk-IsBalanced fs (length b.pending_orders) 0 (start_pass b) v)
