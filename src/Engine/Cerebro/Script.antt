-- ===== src/Engine/Cerebro/Script.antt =====
-- What `Cerebro::run` of include/stratforge/engine/cerebro.hpp shows and whom it calls, as a list of
-- scenes that is set by the feeds alone, and the broker's calls that come of it.
use strat_forge.Common.{ℕ, zero, suc, true, List, [], ◌∷◌, ◌++◌, ◌≡◌, refl, ◌∙◌, map}
use strat_forge.Common.Throws.{Throws, returns, ◌>>=◌}
use strat_forge.Double.{Double}
use strat_forge.Broker.State.{Broker, Feed}
use strat_forge.Broker.History.{Act, run}
use strat_forge.Broker.History.Sound.{run-append}
use strat_forge.Data.Interval.{CivilCalendar}
use strat_forge.Engine.Clock.{Clocked, advance_contexts}
use strat_forge.Engine.Strategies.{Strategies, Seat, Callback}
use strat_forge.Engine.Strategies.Requests.{asked_by_each, asked_at_bar}
use strat_forge.Engine.Cerebro.{view}

-- The broker gets a bar of every feed, every strategy gets the same callbacks, or every strategy gets
-- the lifecycle call of the bar.
pub data Scene (W : Type 0) : Type 0 where
  shows : ℕ → List (Feed W) → Scene W
  tells : List Callback → List (Clocked W) → Scene W
  steps : List (Clocked W) → Scene W

module _ {W : Type 0} ⦃d : Double W⦄ where
  -- The master feed at a bar.
  abbrev pub master_at : ℕ → Clocked W → Clocked W
  master_at bar m = record m { index = bar; bars_delivered = suc bar; feed_advanced = true }

  -- The scenes of the n bars of the master feed from `bar` on: the clocks set them.
  unfoldable pub tour :
      CivilCalendar → ℕ → ℕ → Clocked W → List (Clocked W) → Throws (List (Scene W))
  unfolding advance_contexts view
  tour c zero bar m contexts = returns []
  tour c (suc n) bar m contexts = advance_contexts c (master_at bar m) contexts >>= λ closed.
      tour c n (suc bar) m closed >>= λ later.
      let fs = master_at bar m ∷ closed in
      returns (Scene.shows bar (map view fs) ∷ Scene.steps fs ∷ later)

module _ {S W : Type 0} ⦃d : Double W⦄ (user : Strategies S W) where
  unfoldable pub acts_in : Scene W → List (Seat S) → Broker W → List (Seat S) × List (Act W)
  unfolding asked_by_each asked_at_bar
  acts_in (Scene.shows bar fs) seats b = (seats, Act.bars bar fs ∷ [])
  acts_in (Scene.tells cbs fs) seats b = asked_by_each user cbs fs seats b
  acts_in (Scene.steps fs) seats b = asked_at_bar user fs seats b

  -- The strategies after the scenes, and the broker's calls in them.
  unfoldable pub history : List (Scene W) → List (Seat S) → Broker W → List (Seat S) × List (Act W)
  unfolding acts_in run
  history [] seats b = (seats, [])
  history (x ∷ xs) seats b =
      let (seats', acts) = acts_in x seats b in
      let (seats'', more) = history xs seats' (run acts b) in (seats'', acts ++ more)

  -- The scenes lead from one state of the strategies and the broker to another, and the broker changes
  -- by nothing but their calls.
  abbrev pub Leads : List (Scene W) → List (Seat S) → Broker W → List (Seat S) → Broker W → Type 0
  Leads xs seats b seats' b' =
      (seats' ≡ (history xs seats b).0) × (b' ≡ run (history xs seats b).1 b)

  pub Leads-scene :
      (x : Scene W) (seats : List (Seat S)) (b : Broker W)
      → Leads (x ∷ []) seats b (acts_in x seats b).0 (run (acts_in x seats b).1 b)
  unfolding history run
  Leads-scene x seats b = (refl, rw (run-append (acts_in x seats b).1 [] b) refl)

  pub Leads-trans :
      (xs ys : List (Scene W)) (s : List (Seat S)) (b : Broker W) (s' : List (Seat S))
      (b' : Broker W) (s'' : List (Seat S)) (b'' : Broker W)
      → Leads xs s b s' b'
      → Leads ys s' b' s'' b''
      → Leads (xs ++ ys) s b s'' b''
  unfolding history run
  Leads-trans [] ys s b s' b' s'' b'' (e, f) (g, h) = (rw (← e, ← f) g, rw (← e, ← f) h)
  Leads-trans (x ∷ xs) ys s b s' b' s'' b'' (e, f) next =
      let acts = (acts_in x s b).1 in
      let s1 = (acts_in x s b).0 in
      let b1 = run acts b in
      let f' : b' ≡ run (history xs s1 b1).1 b1 = f ∙ run-append acts (history xs s1 b1).1 b in
      let (g, h) = Leads-trans xs ys s1 b1 s' b' s'' b'' (e, f') next in
      (g, rw (run-append acts (history (xs ++ ys) s1 b1).1 b) h)
