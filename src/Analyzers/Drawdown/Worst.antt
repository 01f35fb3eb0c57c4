-- ===== src/Analyzers/Drawdown/Worst.antt =====
-- The greatest drawdown is the greatest fall of the portfolio's value.
use strat_forge.Common.{List, [], ◌∷◌, ◌≡◌, sym, ◌∙◌, refl, arith, ◌⊎◌, inl, inr, All, All-imp}
use strat_forge.Double.{Double, ◌≼◌, ◌⊖◌, nought, fmax, IsOrdered, IsExact}
use strat_forge.Double.Order.{le_fmax_left, le_fmax_right}
use strat_forge.Broker.State.{Broker, Feed}
use strat_forge.Broker.Value.{portfolio_value}
use strat_forge.Analyzers.Drawdown.{Drawdown, start, observe, next, watch, max_drawdown}

module _ {W : Type 0} ⦃d : Double W⦄ where
  -- The values that a run of bars gives to the analyzer.
  unfoldable pub worths : List (Broker W × List (Feed W)) → List W
  worths [] = []
  worths ((b, feeds) ∷ bars) = portfolio_value b feeds ∷ worths bars

  abbrev Any : (W → Type 0) → List W → Type 0
  Any P [] = ⊥
  Any P (x ∷ xs) = P x ⊎ Any P xs

  -- No fall from a value to itself or a later one is greater than m.
  abbrev AllFalls : W → List W → Type 0
  AllFalls m [] = Unit
  AllFalls m (x ∷ xs) = All (λ y. (x ⊖ y) ≼ m) (x ∷ xs) × AllFalls m xs

  -- Some fall from a value to itself or a later one is m.
  abbrev SomeFall : W → List W → Type 0
  SomeFall m [] = ⊥
  SomeFall m (x ∷ xs) = Any (λ y. m ≡ x ⊖ y) (x ∷ xs) ⊎ SomeFall m xs

  abbrev pub IsWorstFall : W → List W → Type 0
  IsWorstFall m xs = AllFalls m xs × SomeFall m xs

  module _ (exact : IsExact W) (ordered : IsOrdered W) where
    open ordered use {le_refl, le_trans}

    sub_rises : (x y z : W) → x ≼ y → (x ⊖ z) ≼ (y ⊖ z)
    sub_rises x y z h = rw (exact.sub-eq x z, exact.sub-eq y z) (exact.le_add x y (d.neg z) h)

    observe-peak :
        (v : W) (s : Drawdown W) → (s.peak ≼ (observe v s).peak) × (v ≼ (observe v s).peak)
    unfolding observe fmax
    observe-peak v s = (le_fmax_left ordered s.peak v, le_fmax_right ordered s.peak v)

    observe-worst :
        (v : W) (s : Drawdown W)
        → (max_drawdown s ≼ max_drawdown (observe v s))
          × (((observe v s).peak ⊖ v) ≼ max_drawdown (observe v s))
    unfolding observe
    observe-worst v s = (
      le_fmax_left ordered (max_drawdown s) ((observe v s).peak ⊖ v),
      le_fmax_right ordered (max_drawdown s) ((observe v s).peak ⊖ v),
    )

    watch_rises :
        (bars : List (Broker W × List (Feed W))) (s : Drawdown W)
        → max_drawdown s ≼ max_drawdown (watch bars s)
    unfolding watch next
    watch_rises [] s = le_refl (max_drawdown s)
    watch_rises ((b, feeds) ∷ bars) s =
        le_trans (max_drawdown s) (max_drawdown (next b feeds s))
          (max_drawdown (watch bars (next b feeds s))) (observe-worst (portfolio_value b feeds) s).0
          (watch_rises bars (next b feeds s))

    bounded :
        (bars : List (Broker W × List (Feed W))) (s : Drawdown W)
        → All (λ y. (s.peak ⊖ y) ≼ max_drawdown (watch bars s)) (worths bars)
          × AllFalls (max_drawdown (watch bars s)) (worths bars)
    unfolding watch next worths
    bounded [] s = (tt, tt)
    bounded ((b, feeds) ∷ bars) s =
        let v = portfolio_value b feeds in
        let s' = next b feeds s in
        let m = max_drawdown (watch bars s') in
        let rest = bounded bars s' in
        let up = observe-peak v s in
        let lower : (x : W) → x ≼ s'.peak → All (λ y. (x ⊖ y) ≼ m) (v ∷ worths bars) = λ x h. (
          le_trans (x ⊖ v) (s'.peak ⊖ v) m (sub_rises x s'.peak v h) (
              le_trans (s'.peak ⊖ v) (max_drawdown s') m (observe-worst v s).1
                (watch_rises bars s')),
          All-imp (worths bars)
              (λ y k. le_trans (x ⊖ y) (s'.peak ⊖ y) m (sub_rises x s'.peak y h) k) rest.0,
        ) in
        (lower s.peak up.0, (lower v up.1, rest.1))

  abbrev Reached : W → List (Broker W × List (Feed W)) → Drawdown W → Type 0
  Reached m bars s =
      (m ≡ max_drawdown s) ⊎ Any (λ y. m ≡ s.peak ⊖ y) (worths bars) ⊎ SomeFall m (worths bars)

  observe-cases :
      (v : W) (s : Drawdown W)
      → (((observe v s).peak ≡ s.peak) ⊎ ((observe v s).peak ≡ v))
        × ((max_drawdown (observe v s) ≡ max_drawdown s)
            ⊎ (max_drawdown (observe v s) ≡ (observe v s).peak ⊖ v))
  unfolding observe fmax
  observe-cases v s = ground arith

  reached :
      (bars : List (Broker W × List (Feed W))) (s : Drawdown W)
      → Reached (max_drawdown (watch bars s)) bars s
  unfolding watch next worths
  reached [] s = inl refl
  reached ((b, feeds) ∷ bars) s =
      let v = portfolio_value b feeds in
      let m = max_drawdown (watch bars (next b feeds s)) in
      back v (worths bars) m s (reached bars (next b feeds s))
    where
      carried :
          (v : W) (ws : List W) (m : W) (s : Drawdown W)
          → Any (λ y. m ≡ (observe v s).peak ⊖ y) ws
          → Any (λ y. m ≡ s.peak ⊖ y) ws ⊎ Any (λ y. m ≡ v ⊖ y) ws
      carried v ws m s h = elim (observe-cases v s).0 [
        | inl e ↦ inl (rw e at h)
        | inr e ↦ inr (rw e at h)
      ]

      back :
          (v : W) (ws : List W) (m : W) (s : Drawdown W)
          → (m ≡ max_drawdown (observe v s))
            ⊎ Any (λ y. m ≡ (observe v s).peak ⊖ y) ws
            ⊎ SomeFall m ws
          → (m ≡ max_drawdown s) ⊎ Any (λ y. m ≡ s.peak ⊖ y) (v ∷ ws) ⊎ SomeFall m (v ∷ ws)
      back v ws m s h = grind (arith, observe-cases v s, carried v ws m s)

  -- In exact arithmetic and without NaN: after `start` and any bars, the maximum drawdown is the
  -- greatest fall of the portfolio's value from one bar to the same or a later one, where 0 counts
  -- as the value before the first bar.
  pub max_drawdown-IsWorstFall :
      (exact : IsExact W) (ordered : IsOrdered W) (bars : List (Broker W × List (Feed W)))
      → IsWorstFall (max_drawdown (watch bars (start {W = W}))) (nought ∷ worths bars)
  unfolding start
  max_drawdown-IsWorstFall exact ordered bars =
      let m = max_drawdown (watch bars (start {W = W})) in
      let no_fall : nought ⊖ nought ≡ nought = exact.sub-eq nought nought ∙ exact.add_neg nought in
      let bound = bounded exact ordered bars (start {W = W}) in
      let first : (nought ⊖ nought) ≼ m =
        rw no_fall (watch_rises exact ordered bars (start {W = W})) in
      (
        ((first, bound.0), bound.1),
        elim (reached bars (start {W = W})) [
          | inl e ↦ inl (inl (e ∙ sym no_fall))
          | inr (inl h) ↦ inl (inr h)
          | inr (inr h) ↦ inr h
        ],
      )
