-- ===== src/Broker/TradeBook/Ledger.antt =====
-- The open trades of a feed, summed: what `update_trades` of include/stratforge/broker/broker.hpp
-- does to the sum.
use strat_forge.Common.{
  ℕ, true, List, [], ◌∷◌, ◌++◌, ◌≡◌, refl, sym, arith, All, Option-cases, some, none, inl, inr, ◌⊎◌,
  ◌==◌, if◌then◌else◌,
}
use strat_forge.Double.{Double, ◌⊕◌, nought, IsExact}
use strat_forge.Double.Ring.{zero_add}
use strat_forge.Broker.Currency.{DateTime}
use strat_forge.Broker.Trade.{Trade, update, filled, closes, is_open, is_closed}
use strat_forge.Broker.Trade.Granular.{IsGranular}
use strat_forge.Broker.TradeBook.{pick}

module _ {W : Type 0} ⦃d : Double W⦄ where
  -- The sum of the sizes of a feed's trades.
  unfoldable pub total : ℕ → List (Trade W × W) → W
  total i [] = nought
  total i ((t, _) ∷ ts) = if t.data_index == i then t.size ⊕ total i ts else total i ts

  -- A trade that is not open is empty.
  abbrev pub AllTidy : List (Trade W × W) → Type 0
  AllTidy = All λ e. (is_open e.0 ≡ true) ⊎ (e.0.size ≡ nought)

  -- A size that falls to one feed.
  abbrev pub share : ℕ → W → ℕ → W
  share k x i = if k == i then x else nought

  pub update-data_index :
      (t : Trade W) (fill q comm : W) (bar : ℕ) (at_time : DateTime)
      → (update t fill q comm bar at_time).data_index ≡ t.data_index
  unfolding update filled
  update-data_index t fill q comm bar at_time = ground arith

  pub update-tidy :
      (t : Trade W) (fill q comm : W) (bar : ℕ) (at_time : DateTime)
      → (is_open t ≡ true) ⊎ (t.size ≡ nought)
      → (is_open (update t fill q comm bar at_time) ≡ true)
        ⊎ ((update t fill q comm bar at_time).size ≡ nought)
  unfolding update filled
  update-tidy t fill q comm bar at_time h = ground arith

  pub closed_empty :
      (t : Trade W) → (is_open t ≡ true) ⊎ (t.size ≡ nought) → is_closed t ≡ true → t.size ≡ nought
  closed_empty t h c = ground arith

  pub pick-some :
      (k : ℕ) (ts before after : List (Trade W × W)) (t : Trade W) (orig : W)
      → pick k ts ≡ some (before, (t, orig), after)
      → (ts ≡ before ++ ((t, orig) ∷ after)) × (t.data_index ≡ k)
  unfolding pick
  pick-some k [] before after t orig h = absurd (ground arith)
  pick-some k ((u, w) ∷ ts) before after t orig h = elim (Option-cases (pick k ts)) [
    | inl e ↦ ground arith
    | inr ((b', (t', w'), a'), e) ↦ ground (arith, pick-some k ts b' a' t' w' e)
  ]

  abbrev pub Tidy : Trade W × W → Type 0
  Tidy e = (is_open e.0 ≡ true) ⊎ (e.0.size ≡ nought)

  pub Tidy-replace :
      (before after : List (Trade W × W)) (e e' : Trade W × W)
      → AllTidy (before ++ (e ∷ after))
      → Tidy e'
      → AllTidy (before ++ (e' ∷ after))
  Tidy-replace [] after e e' h k = (k, h.1)
  Tidy-replace (u ∷ before) after e e' h k = (h.0, Tidy-replace before after e e' h.1 k)

  pub Tidy-drop :
      (before after : List (Trade W × W)) (e : Trade W × W)
      → AllTidy (before ++ (e ∷ after))
      → AllTidy (before ++ after)
  Tidy-drop [] after e h = h.1
  Tidy-drop (u ∷ before) after e h = (h.0, Tidy-drop before after e h.1)

  pub Tidy-hit :
      (before after : List (Trade W × W)) (e : Trade W × W)
      → AllTidy (before ++ (e ∷ after))
      → Tidy e
  Tidy-hit [] after e h = h.0
  Tidy-hit (u ∷ before) after e h = Tidy-hit before after e h.1

  module _ (exact : IsExact W) where
    open exact use {add_assoc, add_comm, add_zero}

    pub total-append :
        (i : ℕ) (xs ys : List (Trade W × W)) → total i (xs ++ ys) ≡ total i xs ⊕ total i ys
    unfolding total
    total-append i [] ys = sym (zero_add exact (total i ys))
    total-append i ((t, w) ∷ xs) ys =
        ground (arith, total-append i xs ys, add_assoc t.size (total i xs) (total i ys))

    -- One trade is replaced by one of another size.
    pub total-replace :
        (k i : ℕ) (before after : List (Trade W × W)) (t t' : Trade W) (w w' x : W)
        → t.data_index ≡ k
        → t'.data_index ≡ k
        → t'.size ≡ t.size ⊕ x
        → total i (before ++ ((t', w') ∷ after))
          ≡ total i (before ++ ((t, w) ∷ after)) ⊕ share k x i
    unfolding total
    total-replace k i [] after t t' w w' x e e' s = ground (
      arith,
      add_assoc t.size x (total i after),
      add_assoc t.size (total i after) x,
      add_comm x (total i after),
      add_zero (total i after),
    )
    total-replace k i ((u, v) ∷ before) after t t' w w' x e e' s = ground (
      arith,
      total-replace k i before after t t' w w' x e e' s,
      add_assoc u.size (total i (before ++ ((t, w) ∷ after))) (share k x i),
    )

    pub total-drop :
        (i : ℕ) (before after : List (Trade W × W)) (t : Trade W) (w : W)
        → t.size ≡ nought
        → total i (before ++ after) ≡ total i (before ++ ((t, w) ∷ after))
    unfolding total
    total-drop i [] after t w s = ground (arith, zero_add exact (total i after))
    total-drop i ((u, v) ∷ before) after t w s = ground (arith, total-drop i before after t w s)

    -- No open trade of a feed, so nothing in sum.
    pub total-none :
        (k : ℕ) (ts : List (Trade W × W)) → AllTidy ts → pick k ts ≡ none → total k ts ≡ nought
    unfolding total pick
    total-none k [] h e = refl
    total-none k ((t, w) ∷ ts) h e = elim (Option-cases (pick k ts)) [
      | inl e' ↦ ground (arith, total-none k ts h.1 e', add_zero nought)
      | inr (hit, e') ↦ absurd (ground arith)
    ]

    pub update-size :
        (granular : IsGranular W) (t : Trade W) (fill q comm : W) (bar : ℕ) (at_time : DateTime)
        → (update t fill q comm bar at_time).size ≡ t.size ⊕ fill
    unfolding update filled closes
    update-size granular t fill q comm bar at_time = ground (
      arith,
      granular.zero_of_tiny fill,
      granular.zero_of_tiny (t.size ⊕ fill),
      granular.sized-eq-not-tiny (t.size ⊕ fill),
      add_zero t.size,
    )

    pub total-one :
        (k i : ℕ) (t : Trade W) (w x : W)
        → t.data_index ≡ k
        → t.size ≡ nought ⊕ x
        → total i ((t, w) ∷ []) ≡ share k x i
    unfolding total
    total-one k i t w x e s = ground (arith, zero_add exact x, add_zero x)

    -- A trade's own part of the sum.
    pub total-take :
        (k i : ℕ) (before after : List (Trade W × W)) (t : Trade W) (w : W)
        → t.data_index ≡ k
        → total i (before ++ ((t, w) ∷ after)) ≡ total i (before ++ after) ⊕ share k t.size i
    unfolding total
    total-take k i [] after t w e =
        ground (arith, add_comm t.size (total i after), add_zero (total i after))
    total-take k i ((u, v) ∷ before) after t w e = ground (
      arith,
      total-take k i before after t w e,
      add_assoc u.size (total i (before ++ after)) (share k t.size i),
    )

    pub share-add : (k i : ℕ) (x y : W) → share k (x ⊕ y) i ≡ share k y i ⊕ share k x i
    share-add k i x y = ground (arith, add_comm x y, add_zero nought)
