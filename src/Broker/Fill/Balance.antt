-- ===== src/Broker/Fill/Balance.antt =====
-- Fills of include/stratforge/broker/broker.hpp keep each position equal to the sum of the open
-- trades of its feed.
use strat_forge.Common.{
  ℕ, List, [], ◌∷◌, ◌≡◌, refl, sym, ap, arith, Bool-cases, Option-cases, some, inl, inr, ◌∙◌,
}
use strat_forge.Double.{Double, ◌⊕◌, IsExact}
use strat_forge.Broker.Currency.{Currency, DateTime}
use strat_forge.Broker.Order.{Order}
use strat_forge.Broker.Position.{Position, update}
use strat_forge.Broker.Trade.Granular.{IsGranular}
use strat_forge.Broker.State.{
  Broker, Feed, position, position_of, put_position, find_position, sync_order,
}
use strat_forge.Broker.State.Books.{find-put}
use strat_forge.Broker.TradeBook.{FillInfo, update_trades}
use strat_forge.Broker.TradeBook.Ledger.{total, AllTidy, share}
use strat_forge.Broker.TradeBook.Adds.{update_trades-Adds}
use strat_forge.Broker.Fill.{
  try_fill_order, fill_at, settle, fill_cost, unaffordable, trigger, final_price, bar_time,
}
use strat_forge.Broker.Fill.Effect.{trigger-cases}

module _ {W : Type 0} ⦃d : Double W⦄ where
  -- The size of each position is the sum of the open trades of its feed.
  pub record IsBalanced (b : Broker W) : Type 0 where
    pub tidy : AllTidy b.open_trades
    pub sums : (i : ℕ) → total i b.open_trades ≡ (position b i).size

  pub same-IsBalanced :
      (b b' : Broker W)
      → b'.open_trades ≡ b.open_trades
      → b'.positions ≡ b.positions
      → IsBalanced b
      → IsBalanced b'
  unfolding position
  same-IsBalanced b b' t p v = record { tidy = rw t v.tidy; sums = λ i. rw (t, p) (v.sums i) }

  find-data_index :
      (i : ℕ) (ps : List (Position W)) (p : Position W)
      → find_position i ps ≡ some p
      → p.data_index ≡ i
  unfolding find_position
  find-data_index i [] p h = absurd (ground arith)
  find-data_index i (q ∷ ps) p h = ground (arith, find-data_index i ps p)

  pub position_of-data_index : (b : Broker W) (i : ℕ) → (position_of b i).data_index ≡ i
  unfolding position_of
  position_of-data_index b i = elim (Option-cases (find_position i b.positions)) [
    | inl e ↦ ground arith
    | inr (p, e) ↦ ground (arith, find-data_index i b.positions p e)
  ]

  pub position_of-size : (b : Broker W) (i : ℕ) → (position_of b i).size ≡ (position b i).size
  unfolding position_of position
  position_of-size b i = ground arith

  pub update-data_index :
      (p : Position W) (fill price : W) → (update p fill price).data_index ≡ p.data_index
  unfolding update
  update-data_index p fill price = ground arith

  pub update_trades-positions :
      (f : FillInfo W) (b : Broker W) → (update_trades f b).positions ≡ b.positions
  unfolding update_trades
  update_trades-positions f b = ground arith

  module _ (exact : IsExact W) (granular : IsGranular W) where
    open exact use {add_zero}
    open granular use {zero_of_tiny}

    pub update-size : (p : Position W) (fill price : W) → (update p fill price).size ≡ p.size ⊕ fill
    unfolding update
    update-size p fill price = ground (arith, zero_of_tiny (p.size ⊕ fill))

    position-put :
        (b : Broker W) (i j : ℕ) (q : Position W) (x : W) (b' : Broker W)
        → b'.positions ≡ put_position i q b.positions
        → q.data_index ≡ i
        → q.size ≡ (position b i).size ⊕ x
        → (position b' j).size ≡ (position b j).size ⊕ share i x j
    unfolding position
    position-put b i j q x b' e k s = ground (
      arith,
      e,
      find-put i j q b.positions k,
      add_zero (position b j).size,
      ap (λ ps. find_position j ps) e,
    )

    -- A fill that is booked with the size that the position had: any cash, and the position updated.
    pub booked-IsBalanced :
        (b : Broker W) (cash : List (Currency × W)) (f : FillInfo W)
        → f.old_size ≡ (position_of b f.data_index).size
        → IsBalanced b
        → IsBalanced (
            update_trades f (record b {
              cash = cash;
              positions =
                  put_position f.data_index
                    (update (position_of b f.data_index) f.fill_size f.fill_price)
                    b.positions;
            }))
    booked-IsBalanced b cash f e v =
        let i = f.data_index in
        let p = position_of b i in
        let a =
          update_trades-Adds exact granular f _ v.tidy
            (v.sums i ∙ (sym (position_of-size b i) ∙ sym e)) in
        record {
          tidy = a.tidy;
          sums = λ j.
              a.sums j
              ∙ (ap (λ z. z ⊕ share i f.fill_size j) (v.sums j)
                  ∙ sym (
                      position-put b i j (update p f.fill_size f.fill_price) f.fill_size _
                        (update_trades-positions f _)
                        (update-data_index p f.fill_size f.fill_price ∙ position_of-data_index b i)
                        (update-size p f.fill_size f.fill_price
                          ∙ ap (λ z. z ⊕ f.fill_size) (position_of-size b i))));
        }

    settle-IsBalanced :
        (b : Broker W) (o : Order W) (price comm : W) (at_time : DateTime)
        → IsBalanced b
        → IsBalanced (settle b o price comm at_time)
    unfolding settle
    settle-IsBalanced b o price comm at_time v = booked-IsBalanced b _ _ refl v

    sync-IsBalanced : (o : Order W) (b : Broker W) → IsBalanced b → IsBalanced (sync_order o b)
    unfolding sync_order
    sync-IsBalanced o b v = same-IsBalanced b (sync_order o b) refl refl v

    fill_at-IsBalanced :
        (b : Broker W) (o : Order W) (price : W) (at_time : DateTime)
        → IsBalanced b
        → IsBalanced (fill_at b o price at_time).0
    unfolding fill_at
    fill_at-IsBalanced b o price at_time v =
        elim (Bool-cases (unaffordable b o price (fill_cost b o price) at_time)) [
          | inl short ↦ rw short (sync-IsBalanced _ b v)
          | inr good ↦
              rw good
                (sync-IsBalanced _ _ (settle-IsBalanced b o price (fill_cost b o price) at_time v))
        ]

    -- In exact arithmetic with granular sizes: when each position is the sum of the open trades of
    -- its feed, and trades that are not open are empty, it is so after an attempt to fill any
    -- order, on every branch.
    pub try_fill-IsBalanced :
        (b : Broker W) (o : Order W) (f : Feed W)
        → IsBalanced b
        → IsBalanced (try_fill_order b o f).0
    unfolding try_fill_order
    try_fill-IsBalanced b o f v = elim (trigger-cases (trigger o f)) [
      | inl e ↦ rw (e, try_fill_order) (sync-IsBalanced _ b v)
      | inr (inl e) ↦ rw (e, try_fill_order) v
      | inr (inr (raw, e)) ↦ elim (Option-cases (final_price b.config o raw f)) [
        | inl e' ↦ rw (e, try_fill_order, e') v
        | inr (price, e') ↦ rw (e, try_fill_order, e') (fill_at-IsBalanced b o price (bar_time f) v)
      ]
    ]
