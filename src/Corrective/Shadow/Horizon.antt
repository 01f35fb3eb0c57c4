-- ===== src/Corrective/Shadow/Horizon.antt =====
-- The shadow ledger closes an entry at its horizon, whatever else it holds.
use strat_forge.Common.{
  ℕ, suc, ◌+◌, ◌<◌, List, [], ◌∷◌, ◌++◌, ◌≡◌, refl, ap, ◌∙◌, arith, true, false, All, Bool-cases,
  inl, inr,
}
use mathlib.Core.List.{append_assoc}
use strat_forge.Common.Int.{ℤ}
use strat_forge.Double.{Double}
use strat_forge.Broker.Currency.{DateTime}
use strat_forge.Broker.State.{Feed}
use strat_forge.Corrective.Shadow.{ShadowEntry, Call, calls, tick, is_due, close_shadow, add_shadow}

module _ {W : Type 0} where
  abbrev pub held_at : ShadowEntry W → ℕ → ShadowEntry W
  held_at e n = record e { bars_held = n }

  -- A call that does not censor the open entries.
  abbrev pub KeepsOpen : Call W → Type 0
  KeepsOpen (Call.adds e) = Unit
  KeepsOpen (Call.ticks feeds) = Unit
  KeepsOpen (Call.flushes feeds) = ⊥

  abbrev pub ticks_in : List (Call W) → ℕ
  ticks_in [] = 0
  ticks_in (Call.adds e ∷ cs) = ticks_in cs
  ticks_in (Call.ticks feeds ∷ cs) = suc (ticks_in cs)
  ticks_in (Call.flushes feeds ∷ cs) = ticks_in cs

module _ {W : Type 0} ⦃d : Double W⦄ (nanoseconds : DateTime → ℤ) where
  -- A tick treats the entries one by one.
  tick-append :
      (feeds : List (Feed W)) (xs ys : List (ShadowEntry W))
      → let l = tick nanoseconds feeds xs in
        let r = tick nanoseconds feeds ys in
        tick nanoseconds feeds (xs ++ ys) ≡ (l.0 ++ r.0, l.1 ++ r.1)
  unfolding tick
  tick-append feeds [] ys = refl
  tick-append feeds (s ∷ xs) ys = elim (Bool-cases (is_due (held_at s (suc s.bars_held)))) [
    | inl due ↦ rw due (
        ap (λ r. (r.0, close_shadow nanoseconds (held_at s (suc s.bars_held)) feeds ∷ r.1))
          (tick-append feeds xs ys))
    | inr waits ↦
        rw waits (ap (λ r. (held_at s (suc s.bars_held) ∷ r.0, r.1)) (tick-append feeds xs ys))
  ]

  tick_open :
      (feeds : List (Feed W)) (e : ShadowEntry W) (before after : List (ShadowEntry W))
      → is_due (held_at e (suc e.bars_held)) ≡ false
      → (tick nanoseconds feeds (before ++ (e ∷ after))).0
        ≡ (tick nanoseconds feeds before).0
          ++ (held_at e (suc e.bars_held) ∷ (tick nanoseconds feeds after).0)
  unfolding tick
  tick_open feeds e before after h =
      let l = tick nanoseconds feeds before in
      ap (λ r. r.0) (tick-append feeds before (e ∷ after)) ∙ rw h refl

  tick_due :
      (feeds : List (Feed W)) (e : ShadowEntry W) (before after : List (ShadowEntry W))
      → is_due (held_at e (suc e.bars_held)) ≡ true
      → let l = tick nanoseconds feeds before in
        let r = tick nanoseconds feeds after in
        tick nanoseconds feeds (before ++ (e ∷ after))
        ≡ (l.0 ++ r.0, l.1 ++ (close_shadow nanoseconds (held_at e (suc e.bars_held)) feeds ∷ r.1))
  unfolding tick
  tick_due feeds e before after h = tick-append feeds before (e ∷ after) ∙ rw h refl

  -- Where an entry is in the ledger, with the bars that it has been held.
  abbrev pub Holds : ShadowEntry W → List (ShadowEntry W) → Type 0
  Holds e os =
      (before : List (ShadowEntry W)) × (after : List (ShadowEntry W)) × (os
        ≡ before ++ (e ∷ after))

  calls-Holds :
      (e : ShadowEntry W) (cs : List (Call W)) (os : List (ShadowEntry W)) (n : ℕ)
      → All KeepsOpen cs
      → e.bars_held + ticks_in cs ≡ n
      → n < e.horizon_bars
      → Holds e os
      → Holds (held_at e n) (calls nanoseconds cs os).0
  unfolding calls
  calls-Holds e [] os n g h k (before, after, at_e) =
      let same : e.bars_held ≡ n = omega (arith, h) in
      (before, after, at_e ∙ ap (λ m. before ++ (held_at e m ∷ after)) same)
  calls-Holds e (Call.adds x ∷ cs) os n g h k (before, after, at_e) =
      calls-Holds e cs (add_shadow x os) n g.1 h k (
        before,
        after ++ (x ∷ []),
        ap (λ l. l ++ (x ∷ [])) at_e ∙ append_assoc before (e ∷ after) (x ∷ []),
      )
  calls-Holds e (Call.ticks feeds ∷ cs) os n g h k (before, after, at_e) =
      let waits : is_due (held_at e (suc e.bars_held)) ≡ false = ground (arith, h, k) in
      calls-Holds (held_at e (suc e.bars_held)) cs (tick nanoseconds feeds os).0 n g.1
        (omega (arith, h)) k
        (
          (tick nanoseconds feeds before).0,
          (tick nanoseconds feeds after).0,
          ap (λ l. (tick nanoseconds feeds l).0) at_e ∙ tick_open feeds e before after waits,
        )
  calls-Holds e (Call.flushes feeds ∷ cs) os n g h k w = absurd g.0

  -- An entry anywhere in a ledger, and any calls but the censoring flush with one tick fewer than the
  -- entry lacks to its horizon: it is still open then, with the bars that were ticked. The next tick
  -- takes it out and reports it at its horizon and at that tick's feeds, and treats the entries
  -- before it and after it as if it were not there.
  pub calls-horizon :
      (e : ShadowEntry W) (before after : List (ShadowEntry W)) (cs : List (Call W))
      (last : List (Feed W)) (n : ℕ)
      → All KeepsOpen cs
      → e.bars_held + ticks_in cs ≡ n
      → suc n ≡ e.horizon_bars
      → let os = (calls nanoseconds cs (before ++ (e ∷ after))).0 in
        (xs : List (ShadowEntry W)) × (ys : List (ShadowEntry W)) × (os ≡ xs ++ (held_at e n ∷ ys))
        × (tick nanoseconds last os ≡ (
          (tick nanoseconds last xs).0 ++ (tick nanoseconds last ys).0,
          (tick nanoseconds last xs).1
              ++ (close_shadow nanoseconds (held_at e (suc n)) last ∷ (tick nanoseconds last ys).1),
        ))
  calls-horizon e before after cs last n g h k =
      let (xs, ys, there) =
        calls-Holds e cs (before ++ (e ∷ after)) n g h (omega (arith, k)) (before, after, refl) in
      let due : is_due (held_at e (suc n)) ≡ true = ground (arith, k) in
      (xs, ys, there, ap (tick nanoseconds last) there ∙ tick_due last (held_at e n) xs ys due)
