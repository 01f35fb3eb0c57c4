-- ===== src/Broker/Fill/Cash.antt =====
-- What `try_fill_order` of include/stratforge/broker/broker.hpp does to the cash.
use strat_forge.Common.{◌≡◌, ap, arith, true, none, Option-cases, inl, inr, if◌then◌else◌}
use strat_forge.Double.{Double, ◌⊕◌, ◌⊖◌, ◌⊗◌, ◌≼◌, nought, IsExact, IsOrdered}
use strat_forge.Double.Order.{le_of_not_lt}
use strat_forge.Double.Ring.{sub_nonneg}
use strat_forge.Broker.Currency.{Currency, DateTime, same_ccy}
use strat_forge.Broker.Order.{Order, OrderSide, is_alive, is_completed, reject, to_margin, execute}
use strat_forge.Broker.State.{Broker, Feed, cash_in, take_cash, sync_order, instrument_for}
use strat_forge.Broker.State.Books.{cash-put}
use strat_forge.Broker.TradeBook.{FillInfo, update_trades}
use strat_forge.Broker.Fill.{
  try_fill_order, fill_at, settle, signed_size, fill_cost, unaffordable, trigger, final_price,
  bar_time, settlement,
}
use strat_forge.Broker.Fill.Effect.{trigger-cases}

module _ {W : Type 0} ⦃d : Double W⦄ where
  -- What an executed order costs, by its own record of price and commission.
  abbrev pub cost : Order W → W
  cost o = (signed_size o ⊗ o.executed_price) ⊕ o.commission

  -- The cash of a currency after an order has been paid for, if it was completed.
  abbrev pub paid : Broker W → Order W → Currency → W
  paid b o c =
      if is_completed o.status
      then (if same_ccy (settlement (instrument_for b o.data_index) b.config.base_ccy) c
          then cash_in (settlement (instrument_for b o.data_index) b.config.base_ccy) b.cash
            ⊖ cost o
          else cash_in c b.cash)
      else cash_in c b.cash

  update_trades-cash : (f : FillInfo W) (b : Broker W) → (update_trades f b).cash ≡ b.cash
  unfolding update_trades
  update_trades-cash f b = ground arith

  pub settle-cash :
      (b : Broker W) (o : Order W) (price comm : W) (at_time : DateTime)
      → (settle b o price comm at_time).cash
        ≡ take_cash
            (settlement (instrument_for b o.data_index) b.config.base_ccy)
            ((signed_size o ⊗ price) ⊕ comm)
            b.cash
  unfolding settle
  settle-cash b o price comm at_time = update_trades-cash _ _

  fill_at-paid :
      (b : Broker W) (o : Order W) (price : W) (at_time : DateTime) (c : Currency)
      → is_alive o ≡ true
      → cash_in c (fill_at b o price at_time).0.cash ≡ paid b (fill_at b o price at_time).1 c
  unfolding fill_at to_margin execute sync_order take_cash
  fill_at-paid b o price at_time c live =
      let comm = fill_cost b o price in
      let ccy = settlement (instrument_for b o.data_index) b.config.base_ccy in
      ground (
        arith,
        ap (cash_in c) (settle-cash b o price comm at_time),
        cash-put ccy c (cash_in ccy b.cash ⊖ ((signed_size o ⊗ price) ⊕ comm)) b.cash,
      )

  -- For a live order of any kind: after an attempt, if the order is completed, the settlement
  -- currency (the instrument's, or else the base currency) has less by the signed size times the
  -- executed price plus the commission, both as the order records them; all other cash, and all
  -- cash after an attempt that does not complete the order, is as before.
  pub try_fill-paid :
      (b : Broker W) (o : Order W) (f : Feed W) (c : Currency)
      → is_alive o ≡ true
      → cash_in c (try_fill_order b o f).0.cash ≡ paid b (try_fill_order b o f).1 c
  unfolding try_fill_order reject sync_order
  try_fill-paid b o f c live = elim (trigger-cases (trigger o f)) [
    | inl e ↦ ground arith
    | inr (inl e) ↦ ground arith
    | inr (inr (raw, e)) ↦ elim (Option-cases (final_price b.config o raw f)) [
      | inl e' ↦ ground arith
      | inr (price, e') ↦ ground (arith, fill_at-paid b o price (bar_time f) c live)
    ]
  ]

  module _ (exact : IsExact W) (ordered : IsOrdered W) where
    fill_at-solvent :
        (b : Broker W) (o : Order W) (price : W) (at_time : DateTime)
        → instrument_for b o.data_index ≡ none
        → o.side ≡ OrderSide.buy
        → is_alive o ≡ true
        → is_completed (fill_at b o price at_time).1.status ≡ true
        → nought ≼ cash_in b.config.base_ccy (fill_at b o price at_time).0.cash
    unfolding fill_at to_margin execute sync_order take_cash unaffordable
    fill_at-solvent b o price at_time plain buys live h =
        let comm = fill_cost b o price in
        let base = b.config.base_ccy in
        let due = (signed_size o ⊗ price) ⊕ comm in
        ground (
          arith,
          ap (cash_in base) (settle-cash b o price comm at_time),
          cash-put base base (cash_in base b.cash ⊖ due) b.cash,
          le_of_not_lt ordered (cash_in base b.cash) due,
          sub_nonneg exact due (cash_in base b.cash),
        )

    -- In exact ordered arithmetic: when an attempt completes a live purchase on a feed without an
    -- instrument, the cash of the base currency is not negative afterwards, whatever the price,
    -- the slippage and the commission were.
    pub try_fill-solvent :
        (b : Broker W) (o : Order W) (f : Feed W)
        → instrument_for b o.data_index ≡ none
        → o.side ≡ OrderSide.buy
        → is_alive o ≡ true
        → is_completed (try_fill_order b o f).1.status ≡ true
        → nought ≼ cash_in b.config.base_ccy (try_fill_order b o f).0.cash
    unfolding try_fill_order reject
    try_fill-solvent b o f plain buys live h = elim (trigger-cases (trigger o f)) [
      | inl e ↦ absurd (ground arith)
      | inr (inl e) ↦ absurd (ground arith)
      | inr (inr (raw, e)) ↦ elim (Option-cases (final_price b.config o raw f)) [
        | inl e' ↦ absurd (ground arith)
        | inr (price, e') ↦ ground (arith, fill_at-solvent b o price (bar_time f) plain buys live)
      ]
    ]
