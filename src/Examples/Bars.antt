-- ===== src/Examples/Bars.antt =====
-- Three bars of a minute, merged by two.
use strat_forge.Common.{ℕ, List, [], ◌∷◌, ◌≡◌, refl}
use strat_forge.Common.Int.{ℤ, pos}
use strat_forge.Double.Lots.{lots, lots-IsExact}
use strat_forge.Data.Resampler.{Bar, Clock, Target, TimeFrame, resample}
use strat_forge.Data.Resampler.Merge.{traded, traded-resample}

-- A clock of seconds; months are not asked for.
abbrev seconds_clock : Clock
seconds_clock = record { per_second = 1; year_month = λ day. (pos 1970, 1) }

abbrev two_minutes : Target
two_minutes = record { target_tf = TimeFrame.minutes; target_compression = 2 }

abbrev bar_at : ℕ → ℤ → ℤ → Bar ℤ
bar_at second low high = record {
  datetime = pos second;
  open_price = low;
  high = high;
  low = low;
  close = high;
  volume = pos 5;
  openinterest = pos 0;
}

abbrev first_bar : Bar ℤ
first_bar = bar_at 0 (pos 10) (pos 12)

abbrev later_bars : List (Bar ℤ)
later_bars = bar_at 60 (pos 8) (pos 11) ∷ bar_at 120 (pos 9) (pos 13) ∷ []

-- The first two minutes make one bar, which ends at 120; the third makes one that ends at 240.
merged_by_two :
    resample seconds_clock two_minutes (first_bar ∷ later_bars)
    ≡ record {
      datetime = pos 120;
      open_price = pos 10;
      high = pos 12;
      low = pos 8;
      close = pos 11;
      volume = pos 10;
      openinterest = pos 0;
    }
      ∷ record {
        datetime = pos 240;
        open_price = pos 9;
        high = pos 13;
        low = pos 9;
        close = pos 13;
        volume = pos 5;
        openinterest = pos 0;
      }
      ∷ []
unfolding resample
merged_by_two = refl

traded-resample_example :
    traded (resample seconds_clock two_minutes (first_bar ∷ later_bars))
    ≡ traded (first_bar ∷ later_bars)
traded-resample_example =
    traded-resample lots-IsExact seconds_clock two_minutes (first_bar ∷ later_bars)
