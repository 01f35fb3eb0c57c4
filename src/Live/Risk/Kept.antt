-- ===== src/Live/Risk/Kept.antt =====
-- What the engine's risk control keeps: a relation that holds over its steps holds over its operations.
use Prim.Native.String.{String}
use strat_forge.Common.{
  ℕ, zero, suc, Bool, true, false, none, some, List, [], ◌∷◌, ◌++◌, map, ◌⊎◌, inl, inr, ◌≡◌, refl,
  ap, ◌∙◌, if◌then◌else◌, length, Bool-cases,
}
use mathlib.Core.List.{append-nil}
use strat_forge.Double.{Double, abs}
use strat_forge.Broker.Order.{Order, OrderSide}
use strat_forge.Broker.Position.{is_flat, is_long}
use strat_forge.Broker.State.{position_of, put_position}
use strat_forge.Broker.Value.{portfolio_value}
use strat_forge.Broker.Live.{LiveBroker, LiveError, Request, submit_live_order}
use strat_forge.Live.Risk.{
  LiveEngine, Outgoing, send, route, take_over, close_live, flatten_from, trigger_kill_switch,
  evaluate_risk_limits, market_order, live_view, unreadable, drawn_down, too_large, drop_first,
}

module _ {W : Type 0} where
  -- The orders that reached the connector.
  abbrev pub orders_of : List (Outgoing W) → List (Order W)
  orders_of [] = []
  orders_of (Outgoing.sends o ∷ xs) = o ∷ orders_of xs
  orders_of (Outgoing.connects ∷ xs) = orders_of xs
  orders_of (Outgoing.disconnects ∷ xs) = orders_of xs
  orders_of (Outgoing.subscribes s ∷ xs) = orders_of xs
  orders_of (Outgoing.cancels i ∷ xs) = orders_of xs

  pub orders_of-append :
      (xs ys : List (Outgoing W)) → orders_of (xs ++ ys) ≡ orders_of xs ++ orders_of ys
  orders_of-append [] ys = refl
  orders_of-append (Outgoing.sends o ∷ xs) ys = ap (λ r. o ∷ r) (orders_of-append xs ys)
  orders_of-append (Outgoing.connects ∷ xs) ys = orders_of-append xs ys
  orders_of-append (Outgoing.disconnects ∷ xs) ys = orders_of-append xs ys
  orders_of-append (Outgoing.subscribes s ∷ xs) ys = orders_of-append xs ys
  orders_of-append (Outgoing.cancels i ∷ xs) ys = orders_of-append xs ys

  pub orders_of-other :
      (xs : List (Outgoing W)) (x : Outgoing W)
      → orders_of (x ∷ []) ≡ []
      → orders_of (xs ++ (x ∷ [])) ≡ orders_of xs
  orders_of-other xs x h =
      orders_of-append xs (x ∷ []) ∙ (ap (λ r. orders_of xs ++ r) h ∙ append-nil (orders_of xs))

module _ {S W : Type 0} where
  -- The limits, the switch and the orders that were sent stay.
  pub record Frame (e e' : LiveEngine S W) : Type 0 where
    pub limits : e'.limits ≡ e.limits
    pub switch : e'.kill_switch_triggered ≡ e.kill_switch_triggered
    pub reason : e'.kill_switch_reason ≡ e.kill_switch_reason
    pub flattening : e'.flattening ≡ e.flattening
    pub orders : orders_of e'.outbox ≡ orders_of e.outbox

module _ {S W : Type 0} ⦃d : Double W⦄ where
  -- The test of one order, and its way to the connector.
  abbrev pub route_one :
      (LiveEngine S W → Bool × LiveEngine S W) → Order W → LiveEngine S W → LiveEngine S W
  route_one check o e =
      let (passes, e') = check e in if passes then send (Outgoing.sends o) e' else e'

  pub record IsKept (R : LiveEngine S W → LiveEngine S W → Type 0) : Type 0 where
    pub then_ : (a b c : LiveEngine S W) → R a b → R b c → R a c
    pub updates : (a b : LiveEngine S W) → Frame a b → R a b
    pub triggers : (reason : String) (e : LiveEngine S W) → R e (trigger_kill_switch reason e)

  -- A test that keeps the relation with every order.
  abbrev pub KeepsBy :
      (LiveEngine S W → LiveEngine S W → Type 0) → (LiveEngine S W → Bool × LiveEngine S W) → Type 0
  KeepsBy R check = (o : Order W) (e : LiveEngine S W) → R e (route_one check o e)

pub if_true {ℓ} : {A : Type ℓ} (b : Bool) (x y : A) → b ≡ true → (if b then x else y) ≡ x
if_true true x y h = refl
if_true false x y h = absurd (cc h)

pub if_false {ℓ} : {A : Type ℓ} (b : Bool) (x y : A) → b ≡ false → (if b then x else y) ≡ y
if_false true x y h = absurd (cc h)
if_false false x y h = refl

pub either {ℓ κ} :
    {A : Type ℓ} (R : A → A → Type κ) (b : Bool) (a x y : A)
    → R a x
    → R a y
    → R a (if b then x else y)
either R true a x y h k = h
either R false a x y h k = k

module _ {S W : Type 0} ⦃d : Double W⦄ (R : LiveEngine S W → LiveEngine S W → Type 0)
    (kept : IsKept R) where
  pub same : (e : LiveEngine S W) → R e e
  same e =
      kept.updates e e
        (record { limits = refl; switch = refl; reason = refl; flattening = refl; orders = refl })

  pub send-Kept : (x : Outgoing W) (e : LiveEngine S W) → orders_of (x ∷ []) ≡ [] → R e (send x e)
  send-Kept x e h = kept.updates e (send x e) (record {
    limits = refl;
    switch = refl;
    reason = refl;
    flattening = refl;
    orders = orders_of-other e.outbox x h;
  })

module _ {S W : Type 0} ⦃d : Double W⦄ (R : LiveEngine S W → LiveEngine S W → Type 0)
    (kept : IsKept R) (check : LiveEngine S W → Bool × LiveEngine S W) (by : KeepsBy R check) where
  route-Kept : (rs : List (Request W)) (e : LiveEngine S W) → R e (route check rs e)
  unfolding route
  route-Kept [] e = same R kept e
  route-Kept (Request.submits o ∷ rs) e =
      kept.then_ e (route_one check o e) _ (by o e) (route-Kept rs (route_one check o e))
  route-Kept (Request.cancels i ∷ rs) e =
      kept.then_ e (send (Outgoing.cancels i) e) _ (send-Kept R kept (Outgoing.cancels i) e refl)
        (route-Kept rs (send (Outgoing.cancels i) e))

  pub live-Kept : (l : LiveBroker W) (e : LiveEngine S W) → R e (record e { live = l })
  live-Kept l e =
      kept.updates e (record e { live = l })
        (record { limits = refl; switch = refl; reason = refl; flattening = refl; orders = refl })

  pub take_over-Kept : (l : LiveBroker W) (e : LiveEngine S W) → R e (take_over check l e)
  unfolding take_over
  take_over-Kept l e =
      kept.then_ e (record e { live = l }) _ (live-Kept l e)
        (route-Kept (drop_first (length e.live.requests) l.requests) (record e { live = l }))

  -- Which branch `close` takes.
  answered :
      (e : LiveEngine S W) (l1 : LiveBroker W) (r : LiveError ⊎ (LiveBroker W × ℕ))
      → let answer : (LiveError ⊎ ℕ) × LiveEngine S W = elim r [
        | inl error ↦ (inl error, record e { live = l1 })
        | inr (l2, id) ↦ (inr id, take_over check l2 e)
      ] in
        R e answer.1
  answered e l1 (inl error) = live-Kept l1 e
  answered e l1 (inr (l2, id)) = take_over-Kept l2 e

  pub close_live-Kept : (i : ℕ) (e : LiveEngine S W) → R e (close_live check i e).1
  unfolding close_live
  close_live-Kept i e =
      let p = position_of e.live.broker i in
      let l1 : LiveBroker W = record e.live {
        broker = record e.live.broker { positions = put_position i p e.live.broker.positions };
      } in
      elim (Bool-cases (is_flat p)) [
        | inl flat ↦ rw flat (live-Kept l1 e)
        | inr holds ↦ rw holds (
            answered e l1 (
              submit_live_order (if is_long p then OrderSide.sell else OrderSide.buy) (abs p.size)
                (market_order i) l1))
      ]

  pub flatten_from-Kept : (i n : ℕ) (e : LiveEngine S W) → R e (flatten_from check i n e)
  unfolding flatten_from
  flatten_from-Kept i zero e = same R kept e
  flatten_from-Kept i (suc n) e =
      let flat = is_flat (position_of e.live.broker i) in
      let e1 = if flat then e else (close_live check i e).1 in
      kept.then_ e e1 _
        (either R flat e e (close_live check i e).1 (same R kept e) (close_live-Kept i e))
        (flatten_from-Kept (suc i) n e1)

module _ {S W : Type 0} ⦃d : Double W⦄ (R : LiveEngine S W → LiveEngine S W → Type 0)
    (kept : IsKept R) where
  pub evaluate_risk_limits-Kept : (e : LiveEngine S W) → R e (evaluate_risk_limits e)
  unfolding evaluate_risk_limits
  evaluate_risk_limits-Kept e =
      let value = portfolio_value e.live.broker (map live_view e.feeds) in
      let peak = if d.lt e.peak_portfolio_value value then value else e.peak_portfolio_value in
      let e' = record e { peak_portfolio_value = peak } in
      let large : Bool = elim e.limits.max_abs_position [
        | none ↦ false
        | some limit ↦ too_large limit 0 (length e.feeds) e.live.broker
      ] in
      let up : R e e' = kept.updates e e' (record {
        limits = refl;
        switch = refl;
        reason = refl;
        flattening = refl;
        orders = refl;
      }) in
      let ended = record e { terminated = true } in
      let breach = trigger_kill_switch "max drawdown breached" e' in
      let excess = trigger_kill_switch "max position breached" e' in
      either R e.kill_switch_triggered e e _ (same R kept e) (
        either R (unreadable e.feeds e.live.broker.positions) e ended _
          (kept.updates e ended (record {
            limits = refl;
            switch = refl;
            reason = refl;
            flattening = refl;
            orders = refl;
          }))
          (either R (drawn_down peak value e.limits.max_drawdown_percent) e breach _
            (kept.then_ e e' breach up (kept.triggers "max drawdown breached" e'))
            (either R large e excess e'
              (kept.then_ e e' excess up (kept.triggers "max position breached" e')) up)))
