-- ===== src/Data/Interval/Refused.antt =====
-- The time frames that `period_start` and `advance_periods` refuse.
use Prim.Native.String.{String}
use strat_forge.Common.{◌≡◌, refl, arith, Bool, true, false}
use strat_forge.Common.Int.{ℤ, pos, leb_ℤ, eqb_ℤ}
use strat_forge.Common.Throws.{throws}
use strat_forge.Double.Lots.{lots}
use strat_forge.Broker.Currency.{DateTime}
use strat_forge.Data.Resampler.{TimeFrame}
use strat_forge.Data.Interval.{
  TimeFrameCompression, CivilCalendar, duration_of, period_start, advance_periods,
}

abbrev pub of : TimeFrame → ℤ → TimeFrameCompression
of tf n = record { timeframe = tf; compression = n }

-- The time frames that the periods are made for.
abbrev pub accepted : TimeFrameCompression → Bool
accepted tfc = elim tfc.timeframe [
  | TimeFrame.minutes ↦ leb_ℤ (pos 1) tfc.compression
  | TimeFrame.days ↦ leb_ℤ (pos 1) tfc.compression
  | TimeFrame.weeks ↦ eqb_ℤ tfc.compression (pos 1)
  | TimeFrame.months ↦ eqb_ℤ tfc.compression (pos 1)
  | _ ↦ false
]

module _ (c : CivilCalendar) (t : DateTime) where
  refused_duration :
      (tf : TimeFrame) (n : ℤ)
      → leb_ℤ (pos 1) n ≡ false
      → duration_of (of tf n) ≡ throws "duration_of: compression must be positive"
  unfolding duration_of
  refused_duration tf n h = let none : leb_ℤ n (pos 0) ≡ true = ground arith in rw none

  refused_at :
      (tf : TimeFrame) (n : ℤ)
      → accepted (of tf n) ≡ false
      → (message : String) × (period_start c t (of tf n) ≡ throws message)
  unfolding period_start
  refused_at TimeFrame.minutes n h =
      ("duration_of: compression must be positive", rw (refused_duration TimeFrame.minutes n h))
  refused_at TimeFrame.days n h =
      ("duration_of: compression must be positive", rw (refused_duration TimeFrame.days n h))
  refused_at TimeFrame.weeks n h = ("period_start: weeks support compression 1 only", rw h)
  refused_at TimeFrame.months n h = ("period_start: months support compression 1 only", rw h)
  refused_at TimeFrame.tick n h = (_, refl)
  refused_at TimeFrame.seconds n h = (_, refl)
  refused_at TimeFrame.years n h = (_, refl)

  -- Every other time frame is refused by an exception, whatever the time and the number of steps.
  pub advance_refused :
      (tfc : TimeFrameCompression) (n : ℤ)
      → accepted tfc ≡ false
      → (message : String) × (period_start c t tfc ≡ throws message)
        × (advance_periods c t tfc n ≡ throws message)
  unfolding advance_periods
  advance_refused tfc n h =
      let (message, e) = refused_at tfc.timeframe tfc.compression h in (message, e, rw e)
