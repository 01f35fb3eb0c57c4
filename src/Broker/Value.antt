-- ===== src/Broker/Value.antt =====
-- What a portfolio is worth, in include/stratforge/broker/broker.hpp: `cash_in_base` and the two
-- `portfolio_value`.
pub mod Sums
pub mod Fills
use strat_forge.Common.{ℕ, Bool, List, [], ◌∷◌, Option, none, some, if◌then◌else◌, get_elem?}
use strat_forge.Double.{Double, ◌⊕◌, ◌⊗◌, nought}
use strat_forge.Broker.Currency.{Currency, DateTime, same_ccy}
use strat_forge.Broker.Position.{Position, is_flat}
use strat_forge.Broker.State.{Broker, Feed, cash_in}

module _ {W : Type 0} ⦃d : Double W⦄ where
  -- An amount in the base currency, at the rate if there is a provider.
  abbrev pub in_base : Broker W → Currency → W → DateTime → W
  in_base b ccy amount at_time =
      if same_ccy ccy b.config.base_ccy then amount else elim b.config.fx [
        | none ↦ amount
        | some rate ↦ amount ⊗ rate ccy b.config.base_ccy at_time
      ]

  -- The sum over the entries from a sum on.
  unfoldable pub sum_in_base : Broker W → DateTime → List (Currency × W) → W → W
  sum_in_base b at_time [] total = total
  sum_in_base b at_time ((ccy, amount) ∷ m) total =
      sum_in_base b at_time m (total ⊕ in_base b ccy amount at_time)

  unfoldable pub cash_in_base : Broker W → DateTime → W
  unfolding sum_in_base
  cash_in_base b at_time = sum_in_base b at_time b.cash nought

  -- What a position adds to the value at a mark.
  abbrev pub marked : Position W → W → W
  marked p mark = elim p.instrument [
    | none ↦ p.size ⊗ mark
    | some i ↦ i.mark_to_market p.size p.avg_price mark
  ]

  abbrev pub marked_at : Broker W → DateTime → Position W → W → W
  marked_at b at_time p mark = elim p.instrument [
    | none ↦ p.size ⊗ mark
    | some i ↦
        if same_ccy i.settlement_ccy b.config.base_ccy
        then i.mark_to_market p.size p.avg_price mark
        else elim b.config.fx [
          | none ↦ i.mark_to_market p.size p.avg_price mark
          | some rate ↦
              i.mark_to_market p.size p.avg_price mark
              ⊗ rate i.settlement_ccy b.config.base_ccy at_time
        ]
  ]

  -- The loop over the positions, for either way to mark one.
  unfoldable pub sum_positions : (Position W → W → W) → List (Feed W) → List (Position W) → W → W
  unfolding is_flat
  sum_positions mark fs [] value = value
  sum_positions mark fs (p ∷ ps) value =
      let v : W = (elim (get_elem? fs p.data_index) [
        | none ↦ value
        | some f ↦ if is_flat p then value else value ⊕ mark p f.close
      ]) in
      sum_positions mark fs ps v

  unfoldable pub portfolio_value : Broker W → List (Feed W) → W
  unfolding sum_positions cash_in
  portfolio_value b fs = sum_positions marked fs b.positions (cash_in b.config.base_ccy b.cash)

  -- The overload with a time, which converts every currency.
  unfoldable pub portfolio_value_at : Broker W → DateTime → List (Feed W) → W
  unfolding sum_positions cash_in_base
  portfolio_value_at b at_time fs =
      sum_positions (marked_at b at_time) fs b.positions (cash_in_base b at_time)
