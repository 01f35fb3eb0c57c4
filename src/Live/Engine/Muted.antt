-- ===== src/Live/Engine/Muted.antt =====
-- After the kill switch, the rate limit lets no order of the strategy through.
use strat_forge.Common.{ℕ, true, false, Option, none, some, List, [], ◌∷◌, ◌≡◌, refl, if◌then◌else◌}
use strat_forge.Common.Int.{ℤ}
use strat_forge.Double.{Double}
use strat_forge.Live.Risk.{LiveEngine, Outgoing, check_within, send, check_order_rate}
use strat_forge.Live.Risk.Kept.{IsKept, KeepsBy}
use strat_forge.Live.Engine.{LiveStrategy, Happening, happen, happen_all}
use strat_forge.Common.{subst, ap, sym, ◌∙◌, All}
use strat_forge.Live.Risk.Kept.{orders_of, if_true}
use strat_forge.Live.Engine.Happens.{Allows, happen-Kept}
use strat_forge.Live.Engine.Latched.{trigger_again}

module _ {S W : Type 0} ⦃d : Double W⦄ where
  -- The switch is on, no positions are being closed, and there is a limit on the rate of orders.
  pub record IsMuted (e : LiveEngine S W) : Type 0 where
    pub on : e.kill_switch_triggered ≡ true
    pub idle : e.flattening ≡ false
    pub max : ℕ
    pub limited : e.limits.max_orders_per_second ≡ some max

  -- A muted engine stays muted and has sent no further order.
  abbrev pub SendsNothing : LiveEngine S W → LiveEngine S W → Type 0
  SendsNothing a b = IsMuted a → IsMuted b × (orders_of b.outbox ≡ orders_of a.outbox)

  stays : (a b : LiveEngine S W) → b ≡ a → SendsNothing a b
  stays a b h m =
      subst (λ x. IsMuted x × (orders_of x.outbox ≡ orders_of a.outbox)) (sym h) (m, refl)

  SendsNothing-IsKept : IsKept SendsNothing
  SendsNothing-IsKept = record {
    then_ = λ a b c h k m.
        let (m', none_sent) = h m in let (m'', none_sent') = k m' in (m'', none_sent' ∙ none_sent);
    updates = λ a b f m. (
      record {
        on = f.switch ∙ m.on;
        idle = f.flattening ∙ m.idle;
        max = m.max;
        limited = ap (λ l. l.max_orders_per_second) f.limits ∙ m.limited;
      },
      f.orders,
    );
    triggers = λ reason e m. stays e _ (trigger_again reason e m.on) m;
  }

  check_muted :
      (per_second : ℕ) (now : ℤ) (limit : Option ℕ) (e : LiveEngine S W) (m : IsMuted e)
      → limit ≡ some m.max
      → check_within per_second now limit e ≡ (false, e)
  unfolding check_within
  check_muted per_second now none e m h = absurd (cc h)
  check_muted per_second now (some max) e m h =
      if_true e.kill_switch_triggered _ _ m.on ∙ ap (λ f. (f, e)) m.idle

  check-SendsNothing :
      (per_second : ℕ) (now : ℤ) → KeepsBy SendsNothing (check_order_rate per_second now)
  unfolding check_order_rate
  check-SendsNothing per_second now o e m =
      subst (λ r. SendsNothing e (if r.0 then send (Outgoing.sends o) r.1 else r.1))
        (sym (check_muted per_second now e.limits.max_orders_per_second e m m.limited))
        (stays e e refl) m

module _ {S W : Type 0} ⦃d : Double W⦄ (user : LiveStrategy S W) (per_second : ℕ) where
  abbrev pub GoesOn : Happening user per_second → Type 0
  GoesOn (Happening.stops now) = ⊥
  GoesOn _ = Unit

  allowed :
      (x : Happening user per_second)
      → GoesOn x
      → Allows user per_second SendsNothing SendsNothing-IsKept (check-SendsNothing per_second) x
  allowed (Happening.prices now stamp snapshot) g = tt
  allowed (Happening.fills trade) g = tt
  allowed (Happening.states state) g = tt
  allowed (Happening.heartbeats now) g = tt
  allowed Happening.reconnects g = tt
  allowed (Happening.subscribes symbol) g = tt
  allowed (Happening.starts now) g = tt
  allowed (Happening.stops now) g = absurd g
  allowed (Happening.replaces now s) g = tt

  -- With the kill switch on, a limit on the rate of orders and no positions being closed: whatever
  -- happens but `stop`, and whatever the strategy submits, no further order reaches the connector.
  pub happen_all-IsMuted :
      (xs : List (Happening user per_second)) (e : LiveEngine S W)
      → All GoesOn xs
      → IsMuted e
      → IsMuted (happen_all user per_second xs e)
        × (orders_of (happen_all user per_second xs e).outbox ≡ orders_of e.outbox)
  unfolding happen_all
  happen_all-IsMuted [] e g m = (m, refl)
  happen_all-IsMuted (x ∷ xs) e g m =
      let (m', now_same) =
        happen-Kept user per_second SendsNothing SendsNothing-IsKept (check-SendsNothing per_second)
          x e (allowed x g.0) m in
      let (m'', later_same) = happen_all-IsMuted xs (happen user per_second x e) g.1 m' in
      (m'', later_same ∙ now_same)
