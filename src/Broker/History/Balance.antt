-- ===== src/Broker/History/Balance.antt =====
-- After any history each position is the sum of the open trades of its feed.
use strat_forge.Common.{
  ℕ, suc, List, [], ◌∷◌, ◌≡◌, refl, sym, arith, Bool-cases, Option, some, none, inl, inr, ◌∙◌, ◌==◌,
  ap,
}
use strat_forge.Double.{Double, nought, IsExact}
use strat_forge.Broker.Currency.{Currency, FxRateProvider}
use strat_forge.Broker.Commission.{CommissionInfo}
use strat_forge.Broker.Order.{OrderSide, OrderType}
use strat_forge.Broker.Position.{is_flat, is_long}
use strat_forge.Broker.Trade.Granular.{IsGranular}
use strat_forge.Broker.State.{Broker, init, put_position, position_of, position, find_position}
use strat_forge.Broker.Settings.{set_bar_index, deposit, set_cash}
use strat_forge.Broker.State.Books.{find-put}
use strat_forge.Broker.Submit.{
  OrderParams, submit_order_ext, submit_order, bracket, cancel_order, close, plain, opposite,
  child_params,
}
use strat_forge.Broker.TradeBook.Ledger.{total}
use strat_forge.Broker.Fill.Balance.{
  IsBalanced, same-IsBalanced, position_of-data_index, position_of-size,
}
use strat_forge.Broker.Process.Balance.{
  SameHoldings, held-IsBalanced, cancel_all-holds, process_orders-IsBalanced,
}
use strat_forge.Broker.History.{Act, act, run, configure-SameBooks}

module _ {W : Type 0} ⦃d : Double W⦄ where
  submit-holds :
      (side : OrderSide) (size : W) (params : OrderParams W) (b : Broker W)
      → SameHoldings b (submit_order_ext side size params b).0
  unfolding submit_order_ext
  submit-holds side size params b = ground arith

  holds_trans : (a b c : Broker W) → SameHoldings a b → SameHoldings b c → SameHoldings a c
  holds_trans a b c s t = record {
    trades = t.trades ∙ s.trades;
    positions = t.positions ∙ s.positions;
  }

  bracket-holds :
      (side : OrderSide) (size limit_price stop_price : W) (i : ℕ) (b : Broker W)
      → SameHoldings b (bracket side size limit_price stop_price i b).0
  unfolding bracket submit_order
  bracket-holds side size limit_price stop_price i b =
      let group = b.next_oco_group_id in
      let b0 : Broker W = record b { next_oco_group_id = suc group } in
      let main = plain OrderType.market nought none i in
      let (b1, main_id) = submit_order_ext side size main b0 in
      let limit = child_params OrderType.limit limit_price none i main_id group in
      let (b2, limit_id) = submit_order_ext (opposite side) size limit b1 in
      let stop = child_params OrderType.stop nought (some stop_price) i main_id group in
      let s1 = submit-holds side size main b0 in
      let s2 = submit-holds (opposite side) size limit b1 in
      let s3 = submit-holds (opposite side) size stop b2 in
      record {
        trades = s3.trades ∙ (s2.trades ∙ s1.trades);
        positions = s3.positions ∙ (s2.positions ∙ s1.positions);
      }

  cancel-holds : (i : ℕ) (b : Broker W) → SameHoldings b (cancel_order i b)
  unfolding cancel_order
  cancel-holds i b =
      let s = cancel_all-holds (λ o. o.id == i) b.pending_orders b in
      record { trades = s.trades; positions = s.positions }

  -- A position that `close` makes is empty.
  touch-IsBalanced :
      (i : ℕ) (b b' : Broker W)
      → b'.open_trades ≡ b.open_trades
      → b'.positions ≡ put_position i (position_of b i) b.positions
      → IsBalanced b
      → IsBalanced b'
  unfolding position
  touch-IsBalanced i b b' t p v = record {
    tidy = rw t v.tidy;
    sums = λ j. rw t (v.sums j ∙ sym (same_size j));
  }
    where
      same_size : (j : ℕ) → (position b' j).size ≡ (position b j).size
      same_size j = ground (
        arith,
        p,
        ap (λ ps. find_position j ps) p,
        find-put i j (position_of b i) b.positions (position_of-data_index b i),
        position_of-size b i,
      )

  close-IsBalanced : (i : ℕ) (b : Broker W) → IsBalanced b → IsBalanced (close i b).0
  unfolding close submit_order
  close-IsBalanced i b v =
      let b' : Broker W = record b { positions = put_position i (position_of b i) b.positions } in
      let v' = touch-IsBalanced i b b' refl refl v in
      let sent = λ (side : OrderSide) (size : W).
        held-IsBalanced b' _ (submit-holds side size (plain OrderType.market nought none i) b')
          v' in
      elim (Bool-cases (is_flat (position_of b i))) [
        | inl flat ↦ rw flat v'
        | inr held ↦ elim (Bool-cases (is_long (position_of b i))) [
          | inl long ↦ rw (held, long) (sent OrderSide.sell _)
          | inr short ↦ rw (held, short) (sent OrderSide.buy _)
        ]
      ]

  module _ (exact : IsExact W) (granular : IsGranular W) where
    act-IsBalanced : (a : Act W) (b : Broker W) → IsBalanced b → IsBalanced (act a b)
    unfolding act deposit set_cash set_bar_index
    act-IsBalanced (Act.submits side size params) b v =
        held-IsBalanced b _ (submit-holds side size params b) v
    act-IsBalanced (Act.brackets side size limit_price stop_price i) b v =
        held-IsBalanced b _ (bracket-holds side size limit_price stop_price i b) v
    act-IsBalanced (Act.cancels i) b v = held-IsBalanced b _ (cancel-holds i b) v
    act-IsBalanced (Act.closes i) b v = close-IsBalanced i b v
    act-IsBalanced (Act.deposits ccy amount) b v = same-IsBalanced b _ refl refl v
    act-IsBalanced (Act.sets_cash cash) b v = same-IsBalanced b _ refl refl v
    act-IsBalanced (Act.configures setting) b v =
        let same = configure-SameBooks setting b in same-IsBalanced b _ same.trades same.positions v
    act-IsBalanced (Act.bars idx fs) b v =
        process_orders-IsBalanced exact granular fs (set_bar_index idx b)
          (same-IsBalanced b (set_bar_index idx b) refl refl v)

    run-IsBalanced : (acts : List (Act W)) (b : Broker W) → IsBalanced b → IsBalanced (run acts b)
    unfolding run
    run-IsBalanced [] b v = v
    run-IsBalanced (a ∷ acts) b v = run-IsBalanced acts (act a b) (act-IsBalanced a b v)

    -- In exact arithmetic with granular sizes, from a new broker and after any calls outside live mode,
    -- settings included, in any order,
    -- the size of the position of each feed is the sum of the sizes of the feed's open trades.
    pub run-balanced :
        (ccy : Currency) (cash : W) (fx : Option (FxRateProvider W)) (commission : CommissionInfo W)
        (acts : List (Act W)) (i : ℕ)
        → total i (run acts (init ccy cash fx commission)).open_trades
          ≡ (position (run acts (init ccy cash fx commission)) i).size
    unfolding init position total find_position
    run-balanced ccy cash fx commission acts i =
        (run-IsBalanced acts (init ccy cash fx commission) start).sums i
      where
        start : IsBalanced (init ccy cash fx commission)
        start = record { tidy = tt; sums = λ j. refl }
