-- ===== src/Broker/History/Sound.antt =====
-- The order book of include/stratforge/broker/broker.hpp over histories of its calls: how it stays in
-- step with the pending orders.
use strat_forge.Common.{
  ℕ, suc, false, List, [], ◌∷◌, ◌≡◌, refl, arith, Bool-cases, inl, inr, ◌∙◌, ◌==◌, ◌≤◌, ◌⊎◌, some,
  none, Option, ◌++◌,
}
use strat_forge.Double.{Double, nought}
use strat_forge.Broker.Currency.{Currency, FxRateProvider}
use strat_forge.Broker.Commission.{CommissionInfo}
use strat_forge.Broker.Order.{Order, OrderSide, OrderType, is_alive}
use strat_forge.Broker.Position.{is_flat, is_long}
use strat_forge.Broker.State.{Broker, Feed, find_order, init, put_position, position_of}
use strat_forge.Broker.Settings.{set_bar_index, deposit, set_cash}
use strat_forge.Broker.Submit.{
  submit_order_ext, submit_order, bracket, cancel_order, close, cancel_all, set_children, plain,
  child_params, opposite,
}
use strat_forge.Broker.Submit.Numbering.{found-Numbered}
use strat_forge.Broker.Submit.Children.{
  find-set_children, ids-set_children, InOrder-set_children, mirrored-set_children,
}
use strat_forge.Broker.Submit.Sound.{
  IsSound, Sends, same-Sends, Sends-trans, submit-Sends, submit-id, Numbered-congr,
}
use strat_forge.Broker.Process.{process_orders}
use strat_forge.Broker.Process.Cancels.{cancel_all-Cancelled}
use strat_forge.Broker.Process.Frozen.{process_orders-Kept}
use strat_forge.Broker.History.{Act, act, run, configure-SameBooks, IsLinked, AllLinked}

module _ {W : Type 0} ⦃d : Double W⦄ where
  -- The children are set at an id that the old book `b0` does not hold.
  children-Sends :
      (i : ℕ) (kids : List ℕ) (b0 b : Broker W)
      → IsSound b0
      → Sends b0 b
      → ((i ≡ 0) ⊎ (b0.next_order_id ≤ i))
      → Sends b0 (record b {
        all_orders = set_children i kids b.all_orders;
        pending_orders = set_children i kids b.pending_orders;
      })
  children-Sends i kids b0 b v0 (v, frozen) fresh = (
    record {
      in_step = record {
        in_order = InOrder-set_children i 0 kids b.pending_orders v.in_step.in_order;
        mirrored = mirrored-set_children i i kids b.all_orders b.pending_orders v.in_step.mirrored;
      };
      numbered =
          Numbered-congr b.next_order_id b.all_orders (set_children i kids b.all_orders)
            (ids-set_children i kids b.all_orders) v.numbered;
      next_pos = v.next_pos;
    },
    λ j s found dead.
        find-set_children i j kids b.all_orders (elsewhere j s found) ∙ frozen j s found dead,
  )
    where
      elsewhere : (j : ℕ) (s : Order W) → find_order j b0.all_orders ≡ some s → (i == j) ≡ false
      elsewhere j s found =
          ground
            (arith, found-Numbered b0.next_order_id j b0.all_orders s.status v0.numbered, fresh)

  bracket-Sends :
      (side : OrderSide) (size limit_price stop_price : W) (i : ℕ) (b : Broker W)
      → IsSound b
      → Sends b (bracket side size limit_price stop_price i b).0
  unfolding bracket submit_order
  bracket-Sends side size limit_price stop_price i b v =
      let group = b.next_oco_group_id in
      let b0 : Broker W = record b { next_oco_group_id = suc group } in
      let s0 = same-Sends b b0 refl refl refl v in
      let main = plain OrderType.market nought none i in
      let (b1, main_id) = submit_order_ext side size main b0 in
      let s1 = submit-Sends side size main b0 v.next_pos s0.0 in
      let (which, main_lt, up1) = submit-id side size main b0 v.next_pos in
      let limit = child_params OrderType.limit limit_price none i main_id group in
      let (b2, limit_id) = submit_order_ext (opposite side) size limit b1 in
      let s2 = submit-Sends (opposite side) size limit b1 main_lt s1.0 in
      let (_, _, up2) = submit-id (opposite side) size limit b1 s1.0.next_pos in
      let stop = child_params OrderType.stop nought (some stop_price) i main_id group in
      let (b3, stop_id) = submit_order_ext (opposite side) size stop b2 in
      let s3 = submit-Sends (opposite side) size stop b2 (omega arith) s2.0 in
      children-Sends main_id (limit_id ∷ stop_id ∷ []) b b3 v
        (Sends-trans b b0 b3 s0 (Sends-trans b0 b1 b3 s1 (Sends-trans b1 b2 b3 s2 s3)))
        (omega arith)

  cancel-Sends : (i : ℕ) (b : Broker W) → IsSound b → Sends b (cancel_order i b)
  unfolding cancel_order
  cancel-Sends i b v =
      let c =
        cancel_all-Cancelled (λ o. o.id == i) 0 b.pending_orders b v.in_step.in_order
          v.in_step.mirrored in
      let (b', pending) = cancel_all (λ o. o.id == i) b.pending_orders b in
      (
        record {
          in_step = record { in_order = c.in_order; mirrored = c.mirrored };
          numbered =
              rw c.next_id
                (Numbered-congr b.next_order_id b.all_orders b'.all_orders c.same_ids v.numbered);
          next_pos = rw c.next_id v.next_pos;
        },
        c.frozen,
      )

  close-Sends : (i : ℕ) (b : Broker W) → IsSound b → Sends b (close i b).0
  unfolding close submit_order
  close-Sends i b v =
      let b' : Broker W = record b { positions = put_position i (position_of b i) b.positions } in
      let same = same-Sends b b' refl refl refl v in
      let sent = λ (side : OrderSide) (size : W).
        Sends-trans b b' (submit_order_ext side size (plain OrderType.market nought none i) b').0
          same
          (submit-Sends side size (plain OrderType.market nought none i) b' v.next_pos same.0) in
      elim (Bool-cases (is_flat (position_of b i))) [
        | inl flat ↦ rw flat same
        | inr held ↦ elim (Bool-cases (is_long (position_of b i))) [
          | inl long ↦ rw (held, long) (sent OrderSide.sell _)
          | inr short ↦ rw (held, short) (sent OrderSide.buy _)
        ]
      ]

  bar-Sends :
      (idx : ℕ) (fs : List (Feed W)) (b : Broker W)
      → IsSound b
      → Sends b (process_orders fs (set_bar_index idx b))
  unfolding set_bar_index
  bar-Sends idx fs b v =
      let b0 = set_bar_index idx b in
      let s0 = same-Sends b b0 refl refl refl v in
      let (ok, kept) = process_orders-Kept fs b0 s0.0.in_step in
      (
        record {
          in_step = ok;
          numbered =
              rw kept.next_id
                (Numbered-congr b.next_order_id b.all_orders _ kept.same_ids v.numbered);
          next_pos = rw kept.next_id v.next_pos;
        },
        kept.frozen,
      )

  act-Sends : (a : Act W) (b : Broker W) → IsLinked a b → IsSound b → Sends b (act a b)
  unfolding act deposit set_cash
  act-Sends (Act.submits side size params) b l v = submit-Sends side size params b l v
  act-Sends (Act.brackets side size limit_price stop_price i) b l v =
      bracket-Sends side size limit_price stop_price i b v
  act-Sends (Act.cancels i) b l v = cancel-Sends i b v
  act-Sends (Act.closes i) b l v = close-Sends i b v
  act-Sends (Act.deposits ccy amount) b l v = same-Sends b _ refl refl refl v
  act-Sends (Act.sets_cash cash) b l v = same-Sends b _ refl refl refl v
  act-Sends (Act.configures setting) b l v =
      let same = configure-SameBooks setting b in
      same-Sends b _ same.orders same.pending same.next_id v
  act-Sends (Act.bars idx fs) b l v = bar-Sends idx fs b v

  init-IsSound :
      (ccy : Currency) (cash : W) (fx : Option (FxRateProvider W)) (commission : CommissionInfo W)
      → IsSound (init ccy cash fx commission)
  unfolding init
  init-IsSound ccy cash fx commission = record {
    in_step = record { in_order = tt; mirrored = tt };
    numbered = tt;
    next_pos = omega arith;
  }

  run-Sends :
      (acts : List (Act W)) (b : Broker W) → AllLinked acts b → IsSound b → Sends b (run acts b)
  unfolding run
  run-Sends [] b l v = (v, λ j s found dead. found)
  run-Sends (a ∷ acts) b l v =
      let s = act-Sends a b l.0 v in
      Sends-trans b (act a b) (run acts (act a b)) s (run-Sends acts (act a b) l.1 s.0)

  pub run-append :
      (acts more : List (Act W)) (b : Broker W) → run (acts ++ more) b ≡ run more (run acts b)
  unfolding run
  run-append [] more b = refl
  run-append (a ∷ acts) more b = run-append acts more (act a b)

  -- From a new broker, after any calls outside live mode, settings included, in any order in which
  -- a submitted order names no parent or one submitted before: the pending orders stand in the
  -- order of their ids, each younger than its parent, the book of orders holds the status of each, and the ids of the book are positive
  -- and below the next one to be given.
  pub run-IsSound :
      (ccy : Currency) (cash : W) (fx : Option (FxRateProvider W)) (commission : CommissionInfo W)
      (acts : List (Act W))
      → AllLinked acts (init ccy cash fx commission)
      → IsSound (run acts (init ccy cash fx commission))
  run-IsSound ccy cash fx commission acts l =
      (run-Sends acts (init ccy cash fx commission) l (init-IsSound ccy cash fx commission)).0

  -- From a new broker, take any calls outside live mode, settings included, in any order in which a
  -- submitted order names no parent or one submitted before, and any further such calls. An order
  -- that the book holds in a terminal status (completed, canceled, rejected, expired or margin) after the first calls is found in
  -- the book unchanged after all of them.
  pub run_frozen :
      (ccy : Currency) (cash : W) (fx : Option (FxRateProvider W)) (commission : CommissionInfo W)
      (acts more : List (Act W)) (j : ℕ) (s : Order W)
      → AllLinked acts (init ccy cash fx commission)
      → AllLinked more (run acts (init ccy cash fx commission))
      → find_order j (run acts (init ccy cash fx commission)).all_orders ≡ some s
      → is_alive s ≡ false
      → find_order j (run (acts ++ more) (init ccy cash fx commission)).all_orders ≡ some s
  run_frozen ccy cash fx commission acts more j s l m found dead =
      let b = init ccy cash fx commission in
      let sound = run-IsSound ccy cash fx commission acts l in
      rw (run-append acts more b) ((run-Sends more (run acts b) m sound).1 j s found dead)
