-- ===== src/Broker/Live/Balance.antt =====
-- What a live fill does to the books, and that a fill which is reported twice counts once.
use strat_forge.Common.{
  ℕ, Bool, true, false, List, [], ◌∷◌, ◌≡◌, refl, ap, arith, Bool-cases, Option-cases, some, inl,
  inr, ◌∙◌,
}
use strat_forge.Double.{Double, ◌⊖◌, nought, IsExact, abs}
use strat_forge.Broker.Order.{Order}
use strat_forge.Broker.Trade.{Trade}
use strat_forge.Broker.Trade.Granular.{IsGranular}
use strat_forge.Broker.State.{Broker, find_order, sync_order, notify_order}
use strat_forge.Broker.Fill.Balance.{IsBalanced, same-IsBalanced, booked-IsBalanced}
use strat_forge.Broker.Live.{
  LiveBroker, record_live_fill, apply_live_execution, settle_live, is_terminal, sync_both,
  find_snapshot, put_snapshot, size_before,
}

module _ {W : Type 0} ⦃d : Double W⦄ where
  -- The test that a report has nothing new.
  abbrev nothing_new : Trade W → LiveBroker W → Bool
  nothing_new t l =
      d.lt (abs (t.size ⊖ size_before (find_snapshot t.id l.live_trade_snapshots))) d.tick

  find-put_snapshot :
      (i : ℕ) (t : Trade W) (m : List (ℕ × Trade W)) → find_snapshot i (put_snapshot i t m) ≡ some t
  unfolding find_snapshot put_snapshot
  find-put_snapshot i t [] = ground arith
  find-put_snapshot i t ((k, u) ∷ m) = ground (arith, find-put_snapshot i t m)

  module _ (exact : IsExact W) (granular : IsGranular W) where
    settle_live-IsBalanced :
        (o : Order W) (fill price comm : W) (t : Trade W) (b : Broker W)
        → IsBalanced b
        → IsBalanced (settle_live o fill price comm t b)
    unfolding settle_live
    settle_live-IsBalanced o fill price comm t b v = booked-IsBalanced exact granular b _ _ refl v

    apply_live_execution-IsBalanced :
        (o : Order W) (fill price comm : W) (t : Trade W) (b : Broker W)
        → IsBalanced b
        → IsBalanced (apply_live_execution o fill price comm t b)
    unfolding apply_live_execution sync_both sync_order notify_order
    apply_live_execution-IsBalanced o fill price comm t b v =
        let b1 = settle_live o fill price comm t b in
        let v1 = settle_live-IsBalanced o fill price comm t b v in
        elim (Bool-cases (is_terminal t o)) [
          | inl e ↦ rw e (same-IsBalanced b1 _ refl refl v1)
          | inr e ↦ rw e (same-IsBalanced b1 _ refl refl v1)
        ]

    -- In exact arithmetic with granular sizes: when each position is the sum of the open trades of
    -- its feed, and trades that are not open are empty, it is so after any report of a live fill,
    -- on every branch.
    pub record_live_fill-IsBalanced :
        (t : Trade W) (l : LiveBroker W)
        → IsBalanced l.broker
        → IsBalanced (record_live_fill t l).broker
    unfolding record_live_fill
    record_live_fill-IsBalanced t l v = elim (Bool-cases l.connected) [
      | inr off ↦ rw off v
      | inl on ↦ elim (Option-cases (find_order t.id l.broker.all_orders)) [
        | inl e ↦ rw (on, e, record_live_fill) v
        | inr (o, e) ↦ elim (Bool-cases (nothing_new t l)) [
          | inl small ↦ rw (on, e, record_live_fill, small) v
          | inr more ↦
              rw (on, e, record_live_fill, more)
                (apply_live_execution-IsBalanced o _ _ _ t l.broker v)
        ]
      ]
    ]

  -- A report of the trade that the last snapshot holds changes nothing but the snapshots.
  recorded-Same :
      (exact : IsExact W) (t : Trade W) (l : LiveBroker W)
      → d.lt (abs nought) d.tick ≡ true
      → find_snapshot t.id l.live_trade_snapshots ≡ some t
      → (record_live_fill t l).broker ≡ l.broker
  unfolding record_live_fill
  recorded-Same exact t l h e =
      let still : nothing_new t l ≡ true =
        ap (λ p. d.lt (abs (t.size ⊖ size_before p)) d.tick) e
        ∙ (ap (λ z. d.lt (abs z) d.tick) (exact.sub-eq t.size t.size ∙ exact.add_neg t.size) ∙ h) in
      elim (Bool-cases l.connected) [
        | inr off ↦ rw off refl
        | inl on ↦ elim (Option-cases (find_order t.id l.broker.all_orders)) [
          | inl none_found ↦ rw (on, none_found, record_live_fill) refl
          | inr (o, found) ↦ rw (on, found, record_live_fill, still) refl
        ]
      ]

  snapshot-record :
      (t : Trade W) (l : LiveBroker W) (o : Order W)
      → l.connected ≡ true
      → find_order t.id l.broker.all_orders ≡ some o
      → is_terminal t o ≡ false
      → find_snapshot t.id (record_live_fill t l).live_trade_snapshots ≡ some t
  unfolding record_live_fill
  snapshot-record t l o on found partial = elim (Bool-cases (nothing_new t l)) [
    | inl small ↦
        rw (on, found, record_live_fill, small) (find-put_snapshot t.id t l.live_trade_snapshots)
    | inr more ↦
        rw (on, found, record_live_fill, more, partial)
          (find-put_snapshot t.id t l.live_trade_snapshots)
  ]

  -- In exact arithmetic with 0 below the literal 1e-12: a report that leaves its order open, sent
  -- twice in a row, counts once: the second leaves cash, positions, trades and orders as they are.
  pub record_live_fill-again :
      (exact : IsExact W) (t : Trade W) (l : LiveBroker W) (o : Order W)
      → d.lt (abs nought) d.tick ≡ true
      → find_order t.id l.broker.all_orders ≡ some o
      → is_terminal t o ≡ false
      → (record_live_fill t (record_live_fill t l)).broker ≡ (record_live_fill t l).broker
  unfolding record_live_fill
  record_live_fill-again exact t l o h e partial = elim (Bool-cases l.connected) [
    | inl on ↦ recorded-Same exact t (record_live_fill t l) h (snapshot-record t l o on e partial)
    | inr off ↦ rw off refl
  ]
