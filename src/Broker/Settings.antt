-- ===== src/Broker/Settings.antt =====
-- The settings of `BackBroker` in include/stratforge/broker/broker.hpp: cash, slippage, commission,
-- instruments, the pre-order hook and the bar's number.
use strat_forge.Common.{ℕ, suc, Bool, Option, List, [], ◌∷◌, ◌==◌, if◌then◌else◌}
use strat_forge.Double.{Double, ◌⊕◌, nought}
use strat_forge.Broker.Currency.{Currency}
use strat_forge.Broker.Order.{OrderSide}
use strat_forge.Broker.Commission.{CommissionInfo}
use strat_forge.Broker.Instrument.{Instrument}
use strat_forge.Broker.State.{Broker, PreOrderResult, cash_in, put_cash}

module _ {W : Type 0} ⦃d : Double W⦄ where
  unfoldable pub set_cash : W → Broker W → Broker W
  set_cash cash b = record b { initial_cash = cash; cash = put_cash b.config.base_ccy cash b.cash }

  unfoldable pub deposit : Currency → W → Broker W → Broker W
  deposit ccy amount b = record b { cash = put_cash ccy (cash_in ccy b.cash ⊕ amount) b.cash }

  unfoldable pub set_slippage_perc : W → Bool → Bool → Bool → Bool → Broker W → Broker W
  set_slippage_perc perc on_open on_limit matched out b =
      let c = b.config in
      record b {
        config = record c {
          slip_perc = perc;
          slip_fixed = nought;
          slip_open = on_open;
          slip_limit = on_limit;
          slip_match = matched;
          slip_out = out;
        };
      }

  unfoldable pub set_slippage_fixed : W → Bool → Bool → Bool → Bool → Broker W → Broker W
  set_slippage_fixed fixed on_open on_limit matched out b =
      let c = b.config in
      record b {
        config = record c {
          slip_perc = nought;
          slip_fixed = fixed;
          slip_open = on_open;
          slip_limit = on_limit;
          slip_match = matched;
          slip_out = out;
        };
      }

  unfoldable pub set_commission : CommissionInfo W → Broker W → Broker W
  set_commission info b =
      let c = b.config in record b { config = record c { legacy_commission = info } }

  unfoldable pub set_pre_order_hook :
      Option (OrderSide → W → ℕ → PreOrderResult W) → Broker W → Broker W
  set_pre_order_hook hook b =
      let c = b.config in record b { config = record c { pre_order_hook = hook } }

  -- The entry of the map is set, also to no instrument.
  unfoldable pub put_instrument :
      ℕ
      → Option (Instrument W)
      → List (ℕ × Option (Instrument W))
      → List (ℕ × Option (Instrument W))
  put_instrument i v [] = (i, v) ∷ []
  put_instrument i v ((k, w) ∷ m) = if k == i then (k, v) ∷ m else (k, w) ∷ put_instrument i v m

  unfoldable pub set_instrument : ℕ → Option (Instrument W) → Broker W → Broker W
  unfolding put_instrument
  set_instrument i v b =
      let c = b.config in
      record b { config = record c { instrument_map = put_instrument i v c.instrument_map } }

  unfoldable pub next_oco_group : Broker W → Broker W × ℕ
  next_oco_group b = (record b { next_oco_group_id = suc b.next_oco_group_id }, b.next_oco_group_id)

  unfoldable pub set_bar_index : ℕ → Broker W → Broker W
  set_bar_index idx b = record b { data_bar_index = idx }
