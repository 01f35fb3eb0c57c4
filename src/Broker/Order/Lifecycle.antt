-- ===== src/Broker/Order/Lifecycle.antt =====
-- The status of an order as a state machine: which calls move it, and where it stops.
use strat_forge.Common.{false, List, [], ◌∷◌, ◌≡◌, refl, arith, ◌∙◌}
use strat_forge.Double.{Double}
use strat_forge.Broker.Order.{
  Order, is_alive, submit, accept, cancel, reject, expire, to_margin, execute, partial_fill,
}

-- The member functions that change an order, with their arguments.
pub data Call (W : Type 0) : Type 0 where
  submits accepts cancels rejects expires margins : Call W
  executes partly_fills : W → W → W → Call W

module _ {W : Type 0} ⦃d : Double W⦄ where
  unfoldable pub step : Call W → Order W → Order W
  unfolding submit accept cancel reject expire to_margin execute partial_fill
  step Call.submits o = submit o
  step Call.accepts o = accept o
  step Call.cancels o = cancel o
  step Call.rejects o = reject o
  step Call.expires o = expire o
  step Call.margins o = to_margin o
  step (Call.executes p s c) o = execute p s c o
  step (Call.partly_fills p s c) o = partial_fill p s c o

  unfoldable pub steps : List (Call W) → Order W → Order W
  steps [] o = o
  steps (c ∷ cs) o = steps cs (step c o)

  step_frozen : (c : Call W) (o : Order W) → is_alive o ≡ false → step c o ≡ o
  unfolding step
  step_frozen Call.submits o h = rw h
  step_frozen Call.accepts o h = rw h
  step_frozen Call.cancels o h = rw h
  step_frozen Call.rejects o h = rw h
  step_frozen Call.expires o h = rw h
  step_frozen Call.margins o h = rw h
  step_frozen (Call.executes p s c) o h = rw h
  step_frozen (Call.partly_fills p s c) o h = rw h

  -- An order in a terminal status is not changed, in any field, by any sequence of calls.
  pub steps_frozen : (cs : List (Call W)) (o : Order W) → is_alive o ≡ false → steps cs o ≡ o
  unfolding steps
  steps_frozen [] o h = refl
  steps_frozen (c ∷ cs) o h = rw (step_frozen c o h) (steps_frozen cs o h)

  -- What a history may have done to the fill of an order.
  pub record KeepsOrder (o o' : Order W) : Type 0 where
    pub id : o'.id ≡ o.id
    pub type : o'.type ≡ o.type
    pub side : o'.side ≡ o.side
    pub size : o'.size ≡ o.size
    pub price : o'.price ≡ o.price
    pub stop_price : o'.stop_price ≡ o.stop_price
    pub data_index : o'.data_index ≡ o.data_index

  step-KeepsOrder : (c : Call W) (o : Order W) → KeepsOrder o (step c o)
  unfolding step
  step-KeepsOrder Call.submits o = ground arith
  step-KeepsOrder Call.accepts o = ground arith
  step-KeepsOrder Call.cancels o = ground arith
  step-KeepsOrder Call.rejects o = ground arith
  step-KeepsOrder Call.expires o = ground arith
  step-KeepsOrder Call.margins o = ground arith
  step-KeepsOrder (Call.executes p s c) o = ground arith
  step-KeepsOrder (Call.partly_fills p s c) o = ground arith

  KeepsOrder-trans : {a b c : Order W} → KeepsOrder a b → KeepsOrder b c → KeepsOrder a c
  KeepsOrder-trans h k = record {
    id = k.id ∙ h.id;
    type = k.type ∙ h.type;
    side = k.side ∙ h.side;
    size = k.size ∙ h.size;
    price = k.price ∙ h.price;
    stop_price = k.stop_price ∙ h.stop_price;
    data_index = k.data_index ∙ h.data_index;
  }

  -- No sequence of calls changes what was ordered: the id, the type, the side, the size, the prices
  -- and the feed.
  pub steps-KeepsOrder : (cs : List (Call W)) (o : Order W) → KeepsOrder o (steps cs o)
  unfolding steps
  steps-KeepsOrder [] o = ground arith
  steps-KeepsOrder (c ∷ cs) o =
      KeepsOrder-trans (step-KeepsOrder c o) (steps-KeepsOrder cs (step c o))
