-- ===== src/Broker/TradeBook/Adds.antt =====
-- A fill that `update_trades` of include/stratforge/broker/broker.hpp books adds its size to the
-- open trades of its feed.
use strat_forge.Common.{
  ℕ, List, [], ◌∷◌, ◌++◌, ◌≡◌, refl, ap, arith, All-append, Bool-cases, Option-cases, none, inl,
  inr, ◌⊎◌, ◌∙◌,
}
use strat_forge.Double.{Double, ◌⊕◌, ◌⊖◌, ◌⊗◌, ◌⊘◌, IsExact, abs}
use strat_forge.Broker.Position.{is_tiny, same_side}
use strat_forge.Broker.Trade.{Trade, grows, is_closed}
use strat_forge.Broker.Trade.Granular.{IsGranular}
use strat_forge.Broker.State.{Broker}
use strat_forge.Broker.TradeBook.{
  FillInfo, blank, apply, open_trade, pick, add_to_open, book_closed, reverse_trade, reduce_trade,
  reduce_open, update_trades,
}
use strat_forge.Broker.TradeBook.Ledger.{
  total, AllTidy, Tidy, share, update-data_index, update-tidy, closed_empty, pick-some,
  Tidy-replace, Tidy-drop, Tidy-hit, total-append, total-replace, total-drop, total-none,
  update-size, total-one, total-take, share-add,
}

module _ {W : Type 0} ⦃d : Double W⦄ where
  -- `ts'` are the trades `ts` after a fill of size `x` on feed `k`.
  pub record Adds (k : ℕ) (x : W) (ts ts' : List (Trade W × W)) : Type 0 where
    pub tidy : AllTidy ts'
    pub sums : (i : ℕ) → total i ts' ≡ total i ts ⊕ share k x i

  module _ (exact : IsExact W) (granular : IsGranular W) where
    open exact use {add_assoc, add_comm, add_zero, add_neg}
    open granular use {zero_of_tiny, tiny_zero}

    open_trade-Adds :
        (f : FillInfo W) (size comm : W) (b : Broker W)
        → AllTidy b.open_trades
        → Adds f.data_index size b.open_trades (open_trade f size comm b).open_trades
    unfolding open_trade
    open_trade-Adds f size comm b h =
        let t = blank b.next_trade_id f.data_index f.candidate_id in
        let t' = apply f size comm t in
        let e = update-data_index t size f.fill_price comm f.bar_index f.bar_dt in
        let s = update-size exact granular t size f.fill_price comm f.bar_index f.bar_dt in
        record {
          tidy =
              All-append Tidy b.open_trades ((t', size) ∷ []) h
                (update-tidy t size f.fill_price comm f.bar_index f.bar_dt (inl refl), tt);
          sums = λ i.
              total-append exact i b.open_trades ((t', size) ∷ [])
              ∙ ap (λ z. total i b.open_trades ⊕ z)
                  (total-one exact f.data_index i t' size size e s);
        }

    reduce_trade-Adds :
        (f : FillInfo W) (t : Trade W) (orig : W) (before after : List (Trade W × W)) (b : Broker W)
        → t.data_index ≡ f.data_index
        → AllTidy (before ++ ((t, orig) ∷ after))
        → Adds f.data_index f.fill_size
            (before ++ ((t, orig) ∷ after))
            (reduce_trade f t orig before after b).open_trades
    unfolding reduce_trade book_closed
    reduce_trade-Adds f t orig before after b e h =
        let t' = apply f f.fill_size f.comm t in
        let e' = update-data_index t f.fill_size f.fill_price f.comm f.bar_index f.bar_dt in
        let s = update-size exact granular t f.fill_size f.fill_price f.comm f.bar_index f.bar_dt in
        let ok =
          update-tidy t f.fill_size f.fill_price f.comm f.bar_index f.bar_dt
            (Tidy-hit before after (t, orig) h) in
        let tidy' = Tidy-replace before after (t, orig) (t', orig) h ok in
        let sums' = λ (i : ℕ).
          total-replace exact f.data_index i before after t t' orig orig f.fill_size e (e' ∙ e) s in
        elim (Bool-cases (is_closed t')) [
          | inl c ↦ rw c record {
            tidy = Tidy-drop before after (t', orig) tidy';
            sums = λ i. total-drop exact i before after t' orig (closed_empty t' ok c) ∙ sums' i;
          }
          | inr c ↦ rw c record { tidy = tidy'; sums = sums' }
        ]

    reverse_trade-Adds :
        (f : FillInfo W) (t : Trade W) (orig : W) (before after : List (Trade W × W)) (b : Broker W)
        → t.data_index ≡ f.data_index
        → AllTidy (before ++ ((t, orig) ∷ after))
        → Adds f.data_index f.fill_size
            (before ++ ((t, orig) ∷ after))
            (reverse_trade f t orig (before ++ after) b).open_trades
    unfolding reverse_trade book_closed
    reverse_trade-Adds f t orig before after b e h =
        let k = f.data_index in
        let close_comm = (abs t.size ⊘ abs f.fill_size) ⊗ f.comm in
        let closing = apply f (d.neg t.size) close_comm t in
        let a =
          open_trade-Adds f (f.fill_size ⊕ t.size) (f.comm ⊖ close_comm)
            (book_closed closing orig (before ++ after) b) (Tidy-drop before after (t, orig) h) in
        record {
          tidy = a.tidy;
          sums = λ i.
              a.sums i
              ∙ rw
                  (
                    total-take exact k i before after t orig e,
                    share-add exact k i f.fill_size t.size,
                    add_assoc (total i (before ++ after)) (share k t.size i)
                        (share k f.fill_size i),
                  )
                  refl;
        }

    reduce_open-Adds :
        (f : FillInfo W) (b : Broker W)
        → AllTidy b.open_trades
        → (pick f.data_index b.open_trades ≡ none)
          ⊎ Adds f.data_index f.fill_size b.open_trades (reduce_open f b).open_trades
    unfolding reduce_open
    reduce_open-Adds f b h = elim (Option-cases (pick f.data_index b.open_trades)) [
      | inl e ↦ inl e
      | inr ((before, (t, orig), after), e) ↦
          let (split, same) = pick-some f.data_index b.open_trades before after t orig e in
          let h' = rw split at h in
          elim (Bool-cases (grows f.fill_size t.size)) [
            | inl g ↦
                inr (
                  rw (e, reduce_open, g, split)
                    (reverse_trade-Adds f t orig before after b same h'))
            | inr g ↦
                inr (
                  rw (e, reduce_open, g, split) (reduce_trade-Adds f t orig before after b same h'))
          ]
    ]

    add_to_open-Adds :
        (f : FillInfo W) (b : Broker W)
        → AllTidy b.open_trades
        → (pick f.data_index b.open_trades ≡ none)
          ⊎ Adds f.data_index f.fill_size b.open_trades (add_to_open f b).open_trades
    unfolding add_to_open
    add_to_open-Adds f b h = elim (Option-cases (pick f.data_index b.open_trades)) [
      | inl e ↦ inl e
      | inr ((before, (t, orig), after), e) ↦
          let (split, same) = pick-some f.data_index b.open_trades before after t orig e in
          let h' = rw split at h in
          let e' = update-data_index t f.fill_size f.fill_price f.comm f.bar_index f.bar_dt in
          let s =
            update-size exact granular t f.fill_size f.fill_price f.comm f.bar_index f.bar_dt in
          let t' = apply f f.fill_size f.comm t in
          let ok =
            update-tidy t f.fill_size f.fill_price f.comm f.bar_index f.bar_dt
              (Tidy-hit before after (t, orig) h') in
          inr (
            rw (e, add_to_open, split)
              record {
                tidy = Tidy-replace before after (t, orig) (t', orig ⊕ f.fill_size) h' ok;
                sums = λ i.
                    total-replace exact f.data_index i before after t t' orig (orig ⊕ f.fill_size)
                      f.fill_size same (e' ∙ same) s;
              })
    ]

    -- In exact arithmetic with granular sizes, when every booked trade that is not open is empty
    -- and the open trades of a feed add up to its position, a fill adds its size to them, and
    -- nothing to the trades of the other feeds: whether it opens a trade, adds to it, reduces it,
    -- closes it or reverses it. Trades that are not open stay empty.
    pub update_trades-Adds :
        (f : FillInfo W) (b : Broker W)
        → AllTidy b.open_trades
        → total f.data_index b.open_trades ≡ f.old_size
        → Adds f.data_index f.fill_size b.open_trades (update_trades f b).open_trades
    unfolding update_trades
    update_trades-Adds f b h sum = elim (Bool-cases (is_tiny f.old_size)) [
      | inl flat ↦ rw flat (open_trade-Adds f f.fill_size f.comm b h)
      | inr held ↦ elim (Bool-cases (same_side f.old_size f.fill_size)) [
        | inl same ↦ elim (add_to_open-Adds f b h) [
          | inl e ↦ absurd (ground (arith, total-none exact f.data_index b.open_trades h e))
          | inr a ↦ rw (held, same) a
        ]
        | inr other ↦ elim (reduce_open-Adds f b h) [
          | inl e ↦ absurd (ground (arith, total-none exact f.data_index b.open_trades h e))
          | inr a ↦ rw (held, other) a
        ]
      ]
    ]
