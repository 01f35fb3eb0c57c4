-- ===== src/Broker/Value/Fills.antt =====
-- What a fill does to the worth of a portfolio without instruments, by `try_fill_order` of
-- include/stratforge/broker/broker.hpp.
use strat_forge.Common.{
  ℕ, true, List, [], ◌∷◌, ◌≡◌, sym, ap, arith, Option-cases, none, some, inl, inr, ◌∙◌, get_elem?,
}
use strat_forge.Double.{Double, ◌⊕◌, ◌⊖◌, ◌⊗◌, IsExact}
use strat_forge.Double.Ring.{mul_sub, neg_add}
use strat_forge.Broker.Order.{Order, is_alive, is_completed}
use strat_forge.Broker.Position.{Position, update}
use strat_forge.Broker.Trade.Granular.{IsGranular}
use strat_forge.Broker.State.{
  Broker, Feed, cash_in, position_of, put_position, find_position, instrument_for,
}
use strat_forge.Broker.State.Books.{cash-put}
use strat_forge.Broker.Currency.{DateTime}
use strat_forge.Broker.Order.{reject, to_margin, execute}
use strat_forge.Broker.State.{take_cash, sync_order}
use strat_forge.Broker.TradeBook.{FillInfo, update_trades}
use strat_forge.Broker.Fill.{
  try_fill_order, fill_at, settle, signed_size, fill_cost, trigger, final_price, bar_time,
}
use strat_forge.Broker.Fill.Effect.{trigger-cases}
use strat_forge.Broker.Fill.Cash.{settle-cash}
use strat_forge.Broker.Fill.Balance.{
  update_trades-positions, update-data_index, update-size, position_of-data_index,
}
use strat_forge.Broker.Value.{portfolio_value}
use strat_forge.Broker.Value.Sums.{
  NoInstruments, sum_worth, sum_positions-worth, worth-here, size_in, sum_worth-put,
}

module _ {W : Type 0} ⦃d : Double W⦄ where
  module _ (exact : IsExact W) (granular : IsGranular W) where
    open exact use {add_assoc, add_comm, add_zero, add_mul, zero_mul, sub-eq}

    size-position_of : (b : Broker W) (i : ℕ) → (position_of b i).size ≡ size_in i b.positions
    unfolding position_of
    size-position_of b i = ground arith

    update-instrument :
        (p : Position W) (fill price : W) → (update p fill price).instrument ≡ p.instrument
    unfolding update
    update-instrument p fill price = ground arith

    find-NoInstruments :
        (i : ℕ) (ps : List (Position W)) (p : Position W)
        → NoInstruments ps
        → find_position i ps ≡ some p
        → p.instrument ≡ none
    unfolding find_position
    find-NoInstruments i [] p h e = absurd (ground arith)
    find-NoInstruments i (q ∷ ps) p h e = ground (arith, h.0, find-NoInstruments i ps p h.1)

    position_of-plain :
        (b : Broker W) (i : ℕ)
        → NoInstruments b.positions
        → instrument_for b i ≡ none
        → (position_of b i).instrument ≡ none
    unfolding position_of
    position_of-plain b i h e = elim (Option-cases (find_position i b.positions)) [
      | inl e' ↦ ground arith
      | inr (p, e') ↦ ground (arith, find-NoInstruments i b.positions p h e')
    ]

    put-NoInstruments :
        (i : ℕ) (q : Position W) (ps : List (Position W))
        → q.instrument ≡ none
        → NoInstruments ps
        → NoInstruments (put_position i q ps)
    unfolding put_position
    put-NoInstruments i q [] e h = (e, tt)
    put-NoInstruments i q (p ∷ ps) e h = ground (arith, h.0, put-NoInstruments i q ps e h.1)

    update_trades-config : (f : FillInfo W) (b : Broker W) → (update_trades f b).config ≡ b.config
    unfolding update_trades
    update_trades-config f b = ground arith

    settle-positions :
        (b : Broker W) (o : Order W) (price comm : W) (at_time : DateTime)
        → (settle b o price comm at_time).positions
          ≡ put_position o.data_index
              (update (position_of b o.data_index) (signed_size o) price)
              b.positions
    unfolding settle
    settle-positions b o price comm at_time = update_trades-positions _ _

    settle-config :
        (b : Broker W) (o : Order W) (price comm : W) (at_time : DateTime)
        → (settle b o price comm at_time).config ≡ b.config
    unfolding settle
    settle-config b o price comm at_time = update_trades-config _ _

    shuffle : (c s k m n : W) → (c ⊕ (m ⊕ n)) ⊕ (s ⊕ k) ≡ (c ⊕ s) ⊕ ((k ⊕ m) ⊕ n)
    shuffle c s k m n =
        add_assoc c (m ⊕ n) (s ⊕ k)
        ∙ (ap (λ z. c ⊕ z)
              (add_comm (m ⊕ n) (s ⊕ k)
                ∙ (add_assoc s k (m ⊕ n) ∙ ap (λ z. s ⊕ z) (sym (add_assoc k m n))))
            ∙ sym (add_assoc c s ((k ⊕ m) ⊕ n)))

    -- The money side and the holding side of a fill.
    rearrange :
        (cash s size price close comm : W)
        → (cash ⊖ ((size ⊗ price) ⊕ comm)) ⊕ (s ⊕ (size ⊗ close))
          ≡ (cash ⊕ s) ⊕ ((size ⊗ (close ⊖ price)) ⊖ comm)
    rearrange cash s size price close comm =
        rw
          (
            mul_sub exact size close price,
            sub-eq cash ((size ⊗ price) ⊕ comm),
            neg_add exact (size ⊗ price) comm,
            sub-eq (size ⊗ close) (size ⊗ price),
            sub-eq ((size ⊗ close) ⊕ d.neg (size ⊗ price)) comm,
          )
          (shuffle cash s (size ⊗ close) (d.neg (size ⊗ price)) (d.neg comm))

    settle-cash_left :
        (b : Broker W) (o : Order W) (price comm : W) (at_time : DateTime)
        → instrument_for b o.data_index ≡ none
        → cash_in b.config.base_ccy (settle b o price comm at_time).cash
          ≡ cash_in b.config.base_ccy b.cash ⊖ ((signed_size o ⊗ price) ⊕ comm)
    unfolding take_cash
    settle-cash_left b o price comm at_time plain =
        let base = b.config.base_ccy in
        ground (
          arith,
          ap (cash_in base) (settle-cash b o price comm at_time),
          cash-put base base (cash_in base b.cash ⊖ ((signed_size o ⊗ price) ⊕ comm)) b.cash,
        )

    settle-NoInstruments :
        (b : Broker W) (o : Order W) (price comm : W) (at_time : DateTime)
        → NoInstruments b.positions
        → instrument_for b o.data_index ≡ none
        → NoInstruments (settle b o price comm at_time).positions
    settle-NoInstruments b o price comm at_time h plain =
        let i = o.data_index in
        let p = position_of b i in
        rw (settle-positions b o price comm at_time) (
          put-NoInstruments i (update p (signed_size o) price) b.positions
            (update-instrument p (signed_size o) price ∙ position_of-plain b i h plain) h)

    settle-sum_worth :
        (b : Broker W) (o : Order W) (price comm : W) (at_time : DateTime) (fs : List (Feed W))
        (f : Feed W)
        → get_elem? fs o.data_index ≡ some f
        → sum_worth fs (settle b o price comm at_time).positions
          ≡ sum_worth fs b.positions ⊕ (signed_size o ⊗ f.close)
    settle-sum_worth b o price comm at_time fs f here =
        let i = o.data_index in
        let p = position_of b i in
        let fill = signed_size o in
        ap (sum_worth fs) (settle-positions b o price comm at_time)
        ∙ (sum_worth-put exact granular fs i (update p fill price) fill b.positions
              (update-data_index p fill price ∙ position_of-data_index b i)
              (update-size exact granular p fill price ∙ ap (λ z. z ⊕ fill) (size-position_of b i))
            ∙ ap (λ z. sum_worth fs b.positions ⊕ z) (worth-here exact granular fs i fill f here))

    settle-value :
        (b : Broker W) (o : Order W) (price comm : W) (at_time : DateTime) (fs : List (Feed W))
        (f : Feed W)
        → NoInstruments b.positions
        → instrument_for b o.data_index ≡ none
        → get_elem? fs o.data_index ≡ some f
        → portfolio_value (settle b o price comm at_time) fs
          ≡ portfolio_value b fs ⊕ ((signed_size o ⊗ (f.close ⊖ price)) ⊖ comm)
    unfolding portfolio_value
    settle-value b o price comm at_time fs f h plain here =
        let b' = settle b o price comm at_time in
        let fill = signed_size o in
        let cash = cash_in b.config.base_ccy b.cash in
        let held = sum_worth fs b.positions in
        let left =
          ap (λ c. cash_in c.base_ccy b'.cash) (settle-config b o price comm at_time)
          ∙ settle-cash_left b o price comm at_time plain in
        sum_positions-worth exact granular fs b'.positions (cash_in b'.config.base_ccy b'.cash)
          (settle-NoInstruments b o price comm at_time h plain)
        ∙ (ap (λ z. z ⊕ sum_worth fs b'.positions) left
            ∙ (ap (λ z. (cash ⊖ ((fill ⊗ price) ⊕ comm)) ⊕ z)
                  (settle-sum_worth b o price comm at_time fs f here)
                ∙ (rearrange cash held fill price f.close comm
                    ∙ ap (λ z. z ⊕ ((fill ⊗ (f.close ⊖ price)) ⊖ comm))
                        (sym (sum_positions-worth exact granular fs b.positions cash h)))))

    fill_at-value :
        (b : Broker W) (o : Order W) (price : W) (at_time : DateTime) (fs : List (Feed W))
        (f : Feed W)
        → NoInstruments b.positions
        → instrument_for b o.data_index ≡ none
        → get_elem? fs o.data_index ≡ some f
        → is_alive o ≡ true
        → is_completed (fill_at b o price at_time).1.status ≡ true
        → portfolio_value (fill_at b o price at_time).0 fs
          ≡ portfolio_value b fs
            ⊕ ((signed_size o ⊗ (f.close ⊖ (fill_at b o price at_time).1.executed_price))
                ⊖ (fill_at b o price at_time).1.commission)
    unfolding fill_at to_margin execute sync_order portfolio_value
    fill_at-value b o price at_time fs f h plain here live done =
        ground (arith, settle-value b o price (fill_cost b o price) at_time fs f h plain here)

    -- In exact arithmetic with granular sizes, without instruments, and with the order's feed among
    -- those that mark the portfolio: when an attempt completes a live order, the portfolio is worth
    -- what it was worth, plus the signed size times the distance of the close to the executed price,
    -- less the commission. Money and holdings are neither made nor lost.
    pub try_fill-value :
        (b : Broker W) (o : Order W) (f : Feed W) (fs : List (Feed W))
        → NoInstruments b.positions
        → instrument_for b o.data_index ≡ none
        → get_elem? fs o.data_index ≡ some f
        → is_alive o ≡ true
        → is_completed (try_fill_order b o f).1.status ≡ true
        → portfolio_value (try_fill_order b o f).0 fs
          ≡ portfolio_value b fs
            ⊕ ((signed_size o ⊗ (f.close ⊖ (try_fill_order b o f).1.executed_price))
                ⊖ (try_fill_order b o f).1.commission)
    unfolding try_fill_order reject
    try_fill-value b o f fs h plain here live done = elim (trigger-cases (trigger o f)) [
      | inl e ↦ absurd (ground arith)
      | inr (inl e) ↦ absurd (ground arith)
      | inr (inr (raw, e)) ↦ elim (Option-cases (final_price b.config o raw f)) [
        | inl e' ↦ absurd (ground arith)
        | inr (price, e') ↦
            rw (e, try_fill_order, e')
              (fill_at-value b o price (bar_time f) fs f h plain here live (ground arith))
      ]
    ]
