-- ===== src/Broker/Instrument.antt =====
-- include/stratforge/broker/venue.hpp and instrument.hpp: fee schedules, calendars, venues, and the
-- classes of instruments as the virtual functions that they implement.
use Prim.Native.String.{String}
use strat_forge.Common.{ℕ, Bool, Option}
use strat_forge.Double.{Double, ◌⊗◌, ◌⊖◌, ◌⊘◌, nought, abs}
use strat_forge.Broker.Currency.{Currency, DateTime}

pub data SecurityType : Type 0 where
  common_stock future fx_spot option_call option_put corporate_bond : SecurityType

-- `FeeSchedule::commission`.
abbrev pub FeeSchedule : Type 0 → Type 0
FeeSchedule W = W → W → Currency → W

-- The virtual functions of `Calendar`.
pub record Calendar : Type 0 where
  pub is_open : DateTime → Bool
  pub next_open : DateTime → DateTime
  pub next_close : DateTime → DateTime

pub record Venue (W : Type 0) : Type 0 where
  pub base_ccy : Currency
  pub fees : FeeSchedule W
  pub cal : Option Calendar
  pub settlement_days : ℕ

-- The virtual functions of `Instrument`.
pub record Instrument (W : Type 0) : Type 0 where
  pub type : SecurityType
  pub symbol : String
  pub venue : Venue W
  pub settlement_ccy : Currency
  pub notional : W → W → W
  pub mark_to_market : W → W → W → W
  pub initial_margin : W → W → W
  pub maintenance_margin : W → W → W

module _ {W : Type 0} ⦃d : Double W⦄ where
  -- A decimal literal: the quotient of two exact integers rounds to the same double.
  abbrev ratio : ℕ → ℕ → W
  ratio a b = d.lit a ⊘ d.lit b

  pub zero_fees : FeeSchedule W
  zero_fees qty price ccy = nought

  pub percentage_fees : W → FeeSchedule W
  percentage_fees rate qty price ccy = abs qty ⊗ price ⊗ rate

  pub new_equity : String → Venue W → Currency → Instrument W
  new_equity symbol venue ccy = record {
    type = SecurityType.common_stock;
    symbol = symbol;
    venue = venue;
    settlement_ccy = ccy;
    notional = λ qty mark_px. qty ⊗ mark_px;
    mark_to_market = λ qty avg_px mark_px. qty ⊗ (mark_px ⊖ avg_px);
    initial_margin = λ qty mark_px. ratio 5 10 ⊗ abs qty ⊗ mark_px;
    maintenance_margin = λ qty mark_px. ratio 25 100 ⊗ abs qty ⊗ mark_px;
  }

  -- `tick_size` and `expiry` are read by no function of the class.
  pub new_future : String → Venue W → Currency → W → W → Instrument W
  new_future symbol venue ccy multiplier exchange_im = record {
    type = SecurityType.future;
    symbol = symbol;
    venue = venue;
    settlement_ccy = ccy;
    notional = λ qty mark_px. qty ⊗ mark_px ⊗ multiplier;
    mark_to_market = λ qty avg_px mark_px. qty ⊗ (mark_px ⊖ avg_px) ⊗ multiplier;
    initial_margin = λ qty mark_px. abs qty ⊗ exchange_im;
    maintenance_margin = λ qty mark_px. abs qty ⊗ exchange_im ⊗ ratio 8 10;
  }

  -- `symbol` is the two ISO codes put together.
  pub new_fx_spot : String → Currency → Venue W → Instrument W
  new_fx_spot symbol quote venue = record {
    type = SecurityType.fx_spot;
    symbol = symbol;
    venue = venue;
    settlement_ccy = quote;
    notional = λ qty mark_px. qty;
    mark_to_market = λ qty avg_px mark_px. qty ⊗ (mark_px ⊖ avg_px);
    initial_margin = λ qty mark_px. ratio 2 100 ⊗ abs qty;
    maintenance_margin = λ qty mark_px. ratio 1 100 ⊗ abs qty;
  }

  -- Calls and puts differ in their `type` alone.
  pub new_option : SecurityType → String → Venue W → Currency → W → Instrument W
  new_option type symbol venue ccy multiplier = record {
    type = type;
    symbol = symbol;
    venue = venue;
    settlement_ccy = ccy;
    notional = λ qty mark_px. qty ⊗ mark_px ⊗ multiplier;
    mark_to_market = λ qty avg_px mark_px. qty ⊗ (mark_px ⊖ avg_px) ⊗ multiplier;
    initial_margin = λ qty mark_px. abs qty ⊗ mark_px ⊗ multiplier;
    maintenance_margin = λ qty mark_px. abs qty ⊗ mark_px ⊗ multiplier;
  }

  pub new_corporate_bond : String → Venue W → Currency → W → Instrument W
  new_corporate_bond symbol venue ccy face_value = record {
    type = SecurityType.corporate_bond;
    symbol = symbol;
    venue = venue;
    settlement_ccy = ccy;
    notional = λ qty mark_px. qty ⊗ mark_px ⊗ face_value ⊘ d.lit 100;
    mark_to_market = λ qty avg_px mark_px. qty ⊗ (mark_px ⊖ avg_px) ⊗ face_value ⊘ d.lit 100;
    initial_margin = λ qty mark_px. ratio 1 10 ⊗ abs qty ⊗ mark_px ⊗ face_value ⊘ d.lit 100;
    maintenance_margin = λ qty mark_px. ratio 5 100 ⊗ abs qty ⊗ mark_px ⊗ face_value ⊘ d.lit 100;
  }
