-- ===== src/Broker/History.antt =====
-- The calls that drive the broker of include/stratforge/broker/broker.hpp outside live mode, in any
-- order, and what holds after any history of them. The calls of live mode are in Broker/Live.
pub mod Sound
pub mod Balance
use strat_forge.Common.{ℕ, ◌<◌, Bool, Option, List, [], ◌∷◌, ◌≡◌, refl}
use strat_forge.Double.{Double}
use strat_forge.Broker.Currency.{Currency}
use strat_forge.Broker.Order.{OrderSide}
use strat_forge.Broker.Commission.{CommissionInfo}
use strat_forge.Broker.Instrument.{Instrument}
use strat_forge.Broker.State.{Broker, Feed, PreOrderResult}
use strat_forge.Broker.Settings.{
  set_bar_index, deposit, set_cash, set_slippage_perc, set_slippage_fixed, set_commission,
  set_instrument, set_pre_order_hook, next_oco_group,
}
use strat_forge.Broker.Submit.{OrderParams, submit_order_ext, bracket, cancel_order, close}
use strat_forge.Broker.Process.{process_orders}

-- A setting. A hook whose answers change from one call to the next is set anew between them.
pub data Setting (W : Type 0) : Type 0 where
  slips_perc slips_fixed : W → Bool → Bool → Bool → Bool → Setting W
  charges : CommissionInfo W → Setting W
  trades_as : ℕ → Option (Instrument W) → Setting W
  asks : Option (OrderSide → W → ℕ → PreOrderResult W) → Setting W
  takes_group : Setting W

-- `bars` is one bar of the engine: `set_bar_index` and `process_orders`.
pub data Act (W : Type 0) : Type 0 where
  submits : OrderSide → W → OrderParams W → Act W
  brackets : OrderSide → W → W → W → ℕ → Act W
  cancels : ℕ → Act W
  closes : ℕ → Act W
  deposits : Currency → W → Act W
  sets_cash : W → Act W
  configures : Setting W → Act W
  bars : ℕ → List (Feed W) → Act W

module _ {W : Type 0} ⦃d : Double W⦄ where
  unfoldable pub configure : Setting W → Broker W → Broker W
  unfolding set_slippage_perc set_slippage_fixed set_commission set_instrument set_pre_order_hook
      next_oco_group
  configure (Setting.slips_perc x on_open on_limit matched out) b =
      set_slippage_perc x on_open on_limit matched out b
  configure (Setting.slips_fixed x on_open on_limit matched out) b =
      set_slippage_fixed x on_open on_limit matched out b
  configure (Setting.charges info) b = set_commission info b
  configure (Setting.trades_as i instrument) b = set_instrument i instrument b
  configure (Setting.asks hook) b = set_pre_order_hook hook b
  configure Setting.takes_group b = (next_oco_group b).0

  -- What a setting leaves as it is.
  pub record SameBooks (b b' : Broker W) : Type 0 where
    pub orders : b'.all_orders ≡ b.all_orders
    pub pending : b'.pending_orders ≡ b.pending_orders
    pub next_id : b'.next_order_id ≡ b.next_order_id
    pub trades : b'.open_trades ≡ b.open_trades
    pub positions : b'.positions ≡ b.positions

  pub configure-SameBooks : (s : Setting W) (b : Broker W) → SameBooks b (configure s b)
  unfolding configure
  configure-SameBooks (Setting.slips_perc x on_open on_limit matched out) b = record {
    orders = refl;
    pending = refl;
    next_id = refl;
    trades = refl;
    positions = refl;
  }
  configure-SameBooks (Setting.slips_fixed x on_open on_limit matched out) b = record {
    orders = refl;
    pending = refl;
    next_id = refl;
    trades = refl;
    positions = refl;
  }
  configure-SameBooks (Setting.charges info) b = record {
    orders = refl;
    pending = refl;
    next_id = refl;
    trades = refl;
    positions = refl;
  }
  configure-SameBooks (Setting.trades_as i instrument) b = record {
    orders = refl;
    pending = refl;
    next_id = refl;
    trades = refl;
    positions = refl;
  }
  configure-SameBooks (Setting.asks hook) b = record {
    orders = refl;
    pending = refl;
    next_id = refl;
    trades = refl;
    positions = refl;
  }
  configure-SameBooks Setting.takes_group b = record {
    orders = refl;
    pending = refl;
    next_id = refl;
    trades = refl;
    positions = refl;
  }

  unfoldable pub act : Act W → Broker W → Broker W
  unfolding set_bar_index deposit set_cash configure
  act (Act.submits side size params) b = (submit_order_ext side size params b).0
  act (Act.brackets side size limit_price stop_price i) b =
      (bracket side size limit_price stop_price i b).0
  act (Act.cancels i) b = cancel_order i b
  act (Act.closes i) b = (close i b).0
  act (Act.deposits ccy amount) b = deposit ccy amount b
  act (Act.sets_cash cash) b = set_cash cash b
  act (Act.configures setting) b = configure setting b
  act (Act.bars idx feeds) b = process_orders feeds (set_bar_index idx b)

  unfoldable pub run : List (Act W) → Broker W → Broker W
  run [] b = b
  run (a ∷ rest) b = run rest (act a b)

  -- A submitted order names no parent, or one that was submitted before.
  abbrev pub IsLinked : Act W → Broker W → Type 0
  IsLinked (Act.submits side size params) b = params.parent_id < b.next_order_id
  IsLinked (Act.brackets side size limit_price stop_price i) b = Unit
  IsLinked (Act.cancels i) b = Unit
  IsLinked (Act.closes i) b = Unit
  IsLinked (Act.deposits ccy amount) b = Unit
  IsLinked (Act.sets_cash cash) b = Unit
  IsLinked (Act.configures setting) b = Unit
  IsLinked (Act.bars idx feeds) b = Unit

  abbrev pub AllLinked : List (Act W) → Broker W → Type 0
  AllLinked [] b = Unit
  AllLinked (a ∷ rest) b = IsLinked a b × AllLinked rest (act a b)
