-- ===== src/Broker/Value/Sums.antt =====
-- The loop of `portfolio_value` of include/stratforge/broker/broker.hpp as a sum over the positions.
use strat_forge.Common.{
  ℕ, true, List, [], ◌∷◌, ◌≡◌, sym, arith, All, Option-cases, none, some, inl, inr, get_elem?,
}
use strat_forge.Double.{Double, ◌⊕◌, ◌⊗◌, nought, IsExact}
use strat_forge.Double.Ring.{zero_add}
use strat_forge.Broker.Position.{Position, is_flat}
use strat_forge.Broker.Trade.Granular.{IsGranular}
use strat_forge.Broker.State.{Feed, put_position, find_position}
use strat_forge.Broker.Value.{marked, sum_positions}

module _ {W : Type 0} ⦃d : Double W⦄ where
  abbrev pub NoInstruments : List (Position W) → Type 0
  NoInstruments = All λ p. p.instrument ≡ none

  -- The size of a position at the close of its feed, or nought where there is no such feed.
  abbrev pub worth : List (Feed W) → ℕ → W → W
  worth fs i size = elim (get_elem? fs i) [ none ↦ nought | some f ↦ size ⊗ f.close ]

  unfoldable pub sum_worth : List (Feed W) → List (Position W) → W
  sum_worth fs [] = nought
  sum_worth fs (p ∷ ps) = worth fs p.data_index p.size ⊕ sum_worth fs ps

  -- The size that the list holds under an index.
  abbrev pub size_in : ℕ → List (Position W) → W
  size_in i ps = elim (find_position i ps) [ none ↦ nought | some p ↦ p.size ]

  module _ (exact : IsExact W) (granular : IsGranular W) where
    open exact use {add_assoc, add_comm, add_zero, add_mul, zero_mul, sub-eq}

    flat_size : (p : Position W) → is_flat p ≡ true → p.size ≡ nought
    unfolding is_flat
    flat_size p h = granular.zero_of_tiny p.size h

    pub sum_positions-worth :
        (fs : List (Feed W)) (ps : List (Position W)) (value : W)
        → NoInstruments ps
        → sum_positions marked fs ps value ≡ value ⊕ sum_worth fs ps
    unfolding sum_positions sum_worth
    sum_positions-worth fs [] value h = sym (add_zero value)
    sum_positions-worth fs (p ∷ ps) value h = elim (Option-cases (get_elem? fs p.data_index)) [
      | inl e ↦
          ground (arith, sum_positions-worth fs ps value h.1, zero_add exact (sum_worth fs ps))
      | inr (f, e) ↦ ground (
        arith,
        h.0,
        flat_size p,
        zero_mul f.close,
        zero_add exact (sum_worth fs ps),
        sum_positions-worth fs ps value h.1,
        sum_positions-worth fs ps (value ⊕ (p.size ⊗ f.close)) h.1,
        add_assoc value (p.size ⊗ f.close) (sum_worth fs ps),
      )
    ]

    pub worth-here :
        (fs : List (Feed W)) (i : ℕ) (x : W) (f : Feed W)
        → get_elem? fs i ≡ some f
        → worth fs i x ≡ x ⊗ f.close
    worth-here fs i x f e = ground arith

    worth-add :
        (fs : List (Feed W)) (i : ℕ) (x y : W) → worth fs i (x ⊕ y) ≡ worth fs i x ⊕ worth fs i y
    worth-add fs i x y = elim (Option-cases (get_elem? fs i)) [
      | inl e ↦ ground (arith, add_zero nought)
      | inr (f, e) ↦ ground (arith, add_mul x y f.close)
    ]

    -- One position is replaced or appended.
    pub sum_worth-put :
        (fs : List (Feed W)) (i : ℕ) (q : Position W) (x : W) (ps : List (Position W))
        → q.data_index ≡ i
        → q.size ≡ size_in i ps ⊕ x
        → sum_worth fs (put_position i q ps) ≡ sum_worth fs ps ⊕ worth fs i x
    unfolding sum_worth put_position find_position
    sum_worth-put fs i q x [] k s = rw (k, s, zero_add exact x) (add_comm (worth fs i x) nought)
    sum_worth-put fs i q x (p ∷ ps) k s = ground (
      arith,
      sum_worth-put fs i q x ps k,
      worth-add fs i p.size x,
      add_assoc (worth fs i p.size) (worth fs i x) (sum_worth fs ps),
      add_assoc (worth fs i p.size) (sum_worth fs ps) (worth fs i x),
      add_assoc (worth fs p.data_index p.size) (sum_worth fs ps) (worth fs i x),
      add_comm (worth fs i x) (sum_worth fs ps),
    )
