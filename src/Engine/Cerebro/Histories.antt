-- ===== src/Engine/Cerebro/Histories.antt =====
-- A run of `Cerebro::run` in include/stratforge/engine/cerebro.hpp is a history of the broker: the bars of
-- the feeds in order, and between them what the strategies ask for.
use strat_forge.Common.{ℕ, suc, List, [], ◌∷◌, ◌++◌, ◌≡◌, ◌<◌, ltb, length, map, if◌then◌else◌}
use strat_forge.Common.Int.{ℤ}
use strat_forge.Common.Throws.{returns}
use strat_forge.Double.{Double}
use strat_forge.Broker.Currency.{DateTime}
use strat_forge.Broker.State.{Broker}
use strat_forge.Broker.History.{Act}
use strat_forge.Broker.History as History
use strat_forge.Data.Interval.{CivilCalendar}
use strat_forge.Engine.Clock.{Clocked, advance_contexts, advance_feed}
use strat_forge.Engine.Strategies.{Strategies, Callback}
use strat_forge.Engine.Cerebro.{Cerebro, flagged, view, feeds}
use strat_forge.Engine.Cerebro.Script.{Scene, master_at, tour, Leads}

module _ {S W : Type 0} ⦃d : Double W⦄ (c : CivilCalendar) (milliseconds : DateTime → ℤ)
    (user : Strategies S W) where
  -- The next bar of the master feed.
  unfoldable next_bar : ℕ → Clocked W → Clocked W
  unfolding advance_feed
  next_bar bar x =
      flagged c milliseconds user (suc bar)
        (if ltb (suc bar) (length x.rows) then advance_feed x else x)

  abbrev bar_scenes : ℕ → Clocked W → List (Clocked W) → List (Scene W)
  bar_scenes bar x contexts =
      Scene.shows bar (map view (x ∷ contexts)) ∷ Scene.steps (x ∷ contexts) ∷ []

  -- One bar: what the clocks deliver, where the scenes of the bar lead, and where the master feed stands.
  abbrev Bars : ℕ → Clocked W → Cerebro S W → Cerebro S W → Type 0
  Bars bar m e mid =
      (advance_contexts c (master_at bar m) e.contexts ≡ returns mid.contexts)
      × Leads user (bar_scenes bar (master_at bar m) mid.contexts) e.strategies e.broker
          mid.strategies mid.broker
      × (suc bar < length m.rows
          → flagged c milliseconds user (suc bar) mid.master ≡ master_at (suc bar) m)

  -- The scenes of a loop that returns, which the clocks set, lead to what it returns.
  abbrev Tours : ℕ → ℕ → Clocked W → Cerebro S W → Cerebro S W → Type 0
  Tours n bar m e e' =
      (scenes : List (Scene W)) × (tour c n bar m e.contexts ≡ returns scenes)
      × Leads user scenes e.strategies e.broker e'.strategies e'.broker

  -- The scenes of a whole run, from the scenes of its bars.
  abbrev pub whole : Cerebro S W → Cerebro S W → List (Scene W) → List (Scene W)
  whole e e' scenes =
      (Scene.tells (Callback.init ∷ Callback.start ∷ []) (feeds c milliseconds user e) ∷ [])
      ++ (scenes ++ (Scene.tells (Callback.stop ∷ []) (feeds c milliseconds user e') ∷ []))

  -- A run follows its script: the clocks of the feeds set the scenes of its bars, and the strategies
  -- and the broker change by nothing but the scenes, the broker by the calls that belong to them.
  abbrev pub Follows : Cerebro S W → Cerebro S W → Type 0
  Follows e e' =
      (scenes : List (Scene W)) × (tour c (length e.master.rows) 0 e.master e.contexts
        ≡ returns scenes)
      × Leads user (whole e e' scenes) e.strategies e.broker e'.strategies e'.broker
