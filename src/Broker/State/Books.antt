-- ===== src/Broker/State/Books.antt =====
-- Laws of the look-ups and the updates of the order book, the cash and the positions.
use strat_forge.Common.{
  ℕ, Option, none, some, List, [], ◌∷◌, ◌≡◌, refl, arith, ◌==◌, if◌then◌else◌, map,
}
use strat_forge.Double.{Double}
use strat_forge.Broker.Currency.{Currency, same_ccy}
use strat_forge.Broker.Order.{Order, OrderStatus}
use strat_forge.Broker.Position.{Position}
use strat_forge.Broker.State.{find_order, store, find_position, put_position, cash_in, put_cash}

module _ {W : Type 0} where
  -- A write is read back at its own id and nowhere else; it adds no order.
  pub find-store :
      (o : Order W) (i : ℕ) (os : List (Order W))
      → find_order i (store o os) ≡ (
          if o.id == i
          then (elim (find_order i os) [ none ↦ none | some _ ↦ some o ])
          else find_order i os)
  unfolding find_order store
  find-store o i [] = ground arith
  find-store o i (s ∷ ss) = ground (arith, find-store o i ss)

  abbrev pub ids : List (Order W) → List ℕ
  ids = map λ o. o.id

  pub ids-store : (o : Order W) (os : List (Order W)) → ids (store o os) ≡ ids os
  unfolding store
  ids-store o [] = refl
  ids-store o (s ∷ ss) = ground (arith, ids-store o ss)

  -- The status that the book holds under an id.
  abbrev pub status_in : ℕ → List (Order W) → Option OrderStatus
  status_in i os = elim (find_order i os) [ none ↦ none | some o ↦ some o.status ]

  -- The book holds the order's status under its id.
  abbrev pub IsMirrored : List (Order W) → Order W → Type 0
  IsMirrored os o = status_in o.id os ≡ some o.status

module _ {W : Type 0} ⦃d : Double W⦄ where
  pub cash-put :
      (c k : Currency) (v : W) (m : List (Currency × W))
      → cash_in k (put_cash c v m) ≡ (if same_ccy c k then v else cash_in k m)
  unfolding cash_in put_cash
  cash-put c k v [] = refl
  cash-put c k v ((j, w) ∷ m) = ground (arith, cash-put c k v m)

  pub find-put :
      (i j : ℕ) (q : Position W) (ps : List (Position W))
      → q.data_index ≡ i
      → find_position j (put_position i q ps) ≡ (if i == j then some q else find_position j ps)
  unfolding find_position put_position
  find-put i j q [] h = ground arith
  find-put i j q (p ∷ ps) h = ground (arith, find-put i j q ps h)
