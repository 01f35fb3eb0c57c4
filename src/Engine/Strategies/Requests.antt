-- ===== src/Engine/Strategies/Requests.antt =====
-- What strategies ask of the broker, as lists of the broker's calls.
use strat_forge.Common.{true, List, [], ◌∷◌, ◌++◌, ◌≡◌, refl, ap, if◌then◌else◌}
use strat_forge.Double.{Double}
use strat_forge.Broker.State.{Broker}
use strat_forge.Broker.History.{Act, act, run}
use strat_forge.Broker.History.Sound.{run-append}
use strat_forge.Engine.Clock.{Clocked}
use strat_forge.Engine.Strategies.{
  Plan, as_act, Strategies, Seat, Callback, carry_out, call, call_all, phase, all_ready,
}

module _ {S W : Type 0} ⦃d : Double W⦄ where
  -- The calls of a plan, each chosen by what the broker answers to those before it.
  unfoldable pub asked : Plan S W → Broker W → List (Act W)
  asked (Plan.done s) b = []
  asked (Plan.calls r k) b = let b' = act (as_act r) b in as_act r ∷ asked (k b') b'

  -- The state of the strategy after the plan.
  unfoldable pub ends : Plan S W → Broker W → S
  ends (Plan.done s) b = s
  ends (Plan.calls r k) b = let b' = act (as_act r) b in ends (k b') b'

module _ {S W : Type 0} ⦃d : Double W⦄ (user : Strategies S W) where
  -- The strategy and its calls after callbacks one after another.
  unfoldable pub asked_in_turn : List Callback → List (Clocked W) → S → Broker W → S × List (Act W)
  unfolding asked ends run
  asked_in_turn [] fs s b = (s, [])
  asked_in_turn (cb ∷ cbs) fs s b =
      let plan = user.callback cb fs b s in
      let acts = asked plan b in
      let (s', more) = asked_in_turn cbs fs (ends plan b) (run acts b) in (s', acts ++ more)

  -- The same callbacks for every strategy, one strategy after another.
  unfoldable pub asked_by_each :
      List Callback → List (Clocked W) → List (Seat S) → Broker W → List (Seat S) × List (Act W)
  unfolding asked_in_turn run
  asked_by_each cbs fs [] b = ([], [])
  asked_by_each cbs fs (seat ∷ seats) b =
      let (s, acts) = asked_in_turn cbs fs seat.strat b in
      let (seats', more) = asked_by_each cbs fs seats (run acts b) in
      (record seat { strat = s } ∷ seats', acts ++ more)

  -- The lifecycle call of every strategy: `prenext` until all its feeds are ready, then `nextstart`
  -- once, then `next`.
  unfoldable pub asked_at_bar :
      List (Clocked W) → List (Seat S) → Broker W → List (Seat S) × List (Act W)
  unfolding asked_in_turn run all_ready
  asked_at_bar fs [] b = ([], [])
  asked_at_bar fs (seat ∷ seats) b =
      let ready = all_ready user seat.strat 0 fs in
      let cb = phase user seat.entered_next ready in
      let (s, acts) = asked_in_turn (cb ∷ []) fs seat.strat b in
      let (seats', more) = asked_at_bar fs seats (run acts b) in
      (
        record { strat = s; entered_next = if seat.entered_next then true else ready } ∷ seats',
        acts ++ more,
      )

  pub carry_out-asked :
      (p : Plan S W) (b : Broker W) → carry_out user p b ≡ (ends p b, run (asked p b) b)
  unfolding carry_out asked ends run
  carry_out-asked (Plan.done s) b = refl
  carry_out-asked (Plan.calls r k) b = let b' = act (as_act r) b in carry_out-asked (k b') b'

  append_none : {A : Type 0} (xs : List A) → xs ++ [] ≡ xs
  append_none [] = refl
  append_none (x ∷ xs) = ap (λ r. x ∷ r) (append_none xs)

  pub call_all-asked :
      (fs : List (Clocked W)) (seats : List (Seat S)) (b : Broker W)
      → call_all user fs seats b ≡ ((asked_at_bar fs seats b).0, run (asked_at_bar fs seats b).1 b)
  unfolding call_all call asked_at_bar asked_in_turn run
  call_all-asked fs [] b = refl
  call_all-asked fs (seat ∷ seats) b =
      let plan =
        user.callback (phase user seat.entered_next (all_ready user seat.strat 0 fs)) fs b
          seat.strat in
      let acts = asked plan b in
      rw
        (
          carry_out-asked plan b,
          call_all-asked fs seats (run acts b),
          append_none acts,
          run-append acts (asked_at_bar fs seats (run acts b)).1 b,
        )
        refl
