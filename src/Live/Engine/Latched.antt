-- ===== src/Live/Engine/Latched.antt =====
-- The kill switch stays on.
use Prim.Native.String.{String}
use strat_forge.Common.{
  ℕ, Bool, true, Option, none, some, List, [], ◌∷◌, ◌≡◌, refl, if◌then◌else◌, length,
}
use strat_forge.Common.Int.{ℤ}
use strat_forge.Double.{Double}
use strat_forge.Live.Risk.{
  LiveEngine, Outgoing, check_within, send, check_order_rate, flatten_positions,
  trigger_kill_switch,
}
use strat_forge.Live.Risk.Kept.{IsKept, KeepsBy, either}
use strat_forge.Live.Engine.{LiveStrategy, Happening, happen, happen_all}
use strat_forge.Common.{subst, sym, ◌∙◌}
use strat_forge.Live.Risk.Kept.{if_true, flatten_from-Kept}
use strat_forge.Live.Engine.Happens.{Allows, happen-Kept}

module _ {S W : Type 0} ⦃d : Double W⦄ where
  -- A switch that is on stays on, with its reason.
  abbrev pub StaysOn : LiveEngine S W → LiveEngine S W → Type 0
  StaysOn a b =
      a.kill_switch_triggered ≡ true
      → (b.kill_switch_triggered ≡ true) × (b.kill_switch_reason ≡ a.kill_switch_reason)

  pub trigger_again :
      (reason : String) (e : LiveEngine S W)
      → e.kill_switch_triggered ≡ true
      → trigger_kill_switch reason e ≡ e
  unfolding trigger_kill_switch
  trigger_again reason e h = if_true e.kill_switch_triggered e _ h

  StaysOn-IsKept : IsKept StaysOn
  StaysOn-IsKept = record {
    then_ = λ a b c h k p.
        let (on, same_reason) = h p in
        let (on', same_reason') = k on in (on', same_reason' ∙ same_reason);
    updates = λ a b f p. (f.switch ∙ p, f.reason);
    triggers = λ reason e p.
        subst
          (λ x. (x.kill_switch_triggered ≡ true) × (x.kill_switch_reason ≡ e.kill_switch_reason))
          (sym (trigger_again reason e p)) (p, refl);
  }

  -- Once the switch is on, a test of an order leaves the engine as it is.
  check_killed :
      (per_second : ℕ) (now : ℤ) (limit : Option ℕ) (e : LiveEngine S W)
      → e.kill_switch_triggered ≡ true
      → (passes : Bool) × (check_within per_second now limit e ≡ (passes, e))
  unfolding check_within
  check_killed per_second now none e h = (true, refl)
  check_killed per_second now (some max) e h = (e.flattening, if_true e.kill_switch_triggered _ _ h)

  check-StaysOn : (per_second : ℕ) (now : ℤ) → KeepsBy StaysOn (check_order_rate per_second now)
  unfolding check_order_rate
  check-StaysOn per_second now o e p =
      let (passes, same_engine) = check_killed per_second now e.limits.max_orders_per_second e p in
      subst (λ r. StaysOn e (if r.0 then send (Outgoing.sends o) r.1 else r.1)) (sym same_engine)
        (either StaysOn passes e (send (Outgoing.sends o) e) e (λ q. (q, refl)) (λ q. (q, refl))) p

  flatten-StaysOn :
      (per_second : ℕ) (now : ℤ) (e : LiveEngine S W)
      → StaysOn e (flatten_positions (check_order_rate per_second now) e)
  unfolding flatten_positions
  flatten-StaysOn per_second now e =
      flatten_from-Kept StaysOn StaysOn-IsKept (check_order_rate per_second now)
        (check-StaysOn per_second now) 0 (length e.feeds) (record e { flattening = true })

module _ {S W : Type 0} ⦃d : Double W⦄ (user : LiveStrategy S W) (per_second : ℕ) where
  allowed :
      (x : Happening user per_second)
      → Allows user per_second StaysOn StaysOn-IsKept (check-StaysOn per_second) x
  allowed (Happening.prices now stamp snapshot) = tt
  allowed (Happening.fills trade) = tt
  allowed (Happening.states state) = tt
  allowed (Happening.heartbeats now) = tt
  allowed Happening.reconnects = tt
  allowed (Happening.subscribes symbol) = tt
  allowed (Happening.starts now) = tt
  allowed (Happening.stops now) = flatten-StaysOn per_second now
  allowed (Happening.replaces now s) = tt

  -- Once the kill switch is on, it stays on whatever happens, and its reason is the first one.
  pub happen_all-latched :
      (xs : List (Happening user per_second)) (e : LiveEngine S W)
      → e.kill_switch_triggered ≡ true
      → ((happen_all user per_second xs e).kill_switch_triggered ≡ true)
        × ((happen_all user per_second xs e).kill_switch_reason ≡ e.kill_switch_reason)
  unfolding happen_all
  happen_all-latched [] e h = (h, refl)
  happen_all-latched (x ∷ xs) e h =
      let (on, first) =
        happen-Kept user per_second StaysOn StaysOn-IsKept (check-StaysOn per_second) x e
          (allowed x) h in
      let (on', later) = happen_all-latched xs (happen user per_second x e) on in
      (on', later ∙ first)
