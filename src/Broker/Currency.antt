-- ===== src/Broker/Currency.antt =====
-- include/stratforge/broker/currency.hpp: currencies by their ISO number, and a fixed rate between
-- any two.
use strat_forge.Common.{ℕ, Bool, ◌==◌, if◌then◌else◌}
use strat_forge.Common.Int.{ℤ}
use strat_forge.Double.{Double}

-- A `system_clock::time_point`, in the clock's ticks since the epoch.
abbrev pub DateTime : Type 0
DateTime = ℤ

pub data Currency : Type 0 where
  usd eur jpy gbp hkd chf cad aud cny krw sgd nzd : Currency

-- The underlying value of the enumerator, which `std::hash` and `==` go by.
unfoldable pub iso_number : Currency → ℕ
iso_number Currency.usd = 840
iso_number Currency.eur = 978
iso_number Currency.jpy = 392
iso_number Currency.gbp = 826
iso_number Currency.hkd = 344
iso_number Currency.chf = 756
iso_number Currency.cad = 124
iso_number Currency.aud = 36
iso_number Currency.cny = 156
iso_number Currency.krw = 410
iso_number Currency.sgd = 702
iso_number Currency.nzd = 554

abbrev pub same_ccy : Currency → Currency → Bool
same_ccy a b = iso_number a == iso_number b

-- `FxRateProvider::rate`, whose implementations the caller chooses.
abbrev pub FxRateProvider : Type 0 → Type 0
FxRateProvider W = Currency → Currency → DateTime → W

module _ {W : Type 0} ⦃d : Double W⦄ where
  unfoldable pub constant_fx : W → FxRateProvider W
  constant_fx r from to at = if same_ccy from to then d.lit 1 else r
