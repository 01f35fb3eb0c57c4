-- ===== src/Data/Interval.antt =====
-- include/stratforge/data/interval.hpp: the interval vocabulary and the calendar's periods. The
-- clock's ticks per second and the civil months of std::chrono are parameters. An `int64_t` does not
-- overflow on times that the clock can tell.
pub mod Vocabulary
pub mod Floors
pub mod Grid
pub mod Refused
pub mod Periods
use Prim.Native.String.{String}
use text.Mathlib.Text.{◌==◌ as str_eq}
use strat_forge.Common.{
  ℕ, suc, ◌+◌, ◌*◌, ◌%◌, Bool, true, false, ◌&&◌, not, List, [], ◌∷◌, if◌then◌else◌, ltb, ◌==◌,
}
use strat_forge.Common.Int.{ℤ, pos, negsuc, pos_part, ◌+ℤ◌, ◌-ℤ◌, ◌*ℤ◌, ltb_ℤ, leb_ℤ, eqb_ℤ}
use strat_forge.Common.Throws.{Throws, returns, throws, ◌>>=◌}
use strat_forge.Double.Lots.{quot}
use strat_forge.Broker.Currency.{DateTime}
use strat_forge.Data.Resampler.{TimeFrame, floor_div}

pub record TimeFrameCompression : Type 0 where
  pub timeframe : TimeFrame
  pub compression : ℤ

-- core/error.hpp
pub data DataError : Type 0 where
  file_not_found empty_file header_only already_loaded invalid_interval : DataError

-- `std::expected` with a `DataError`.
pub data Expected (A : Type 0) : Type 0 where
  value : A → Expected A
  unexpected : DataError → Expected A

pub record IntervalToken : Type 0 where
  pub token : String
  pub tfc : TimeFrameCompression

abbrev pub entry : String → TimeFrame → ℕ → IntervalToken
entry token tf n = record { token = token; tfc = record { timeframe = tf; compression = pos n } }

unfoldable pub interval_vocabulary : List IntervalToken
interval_vocabulary =
    entry "1m" TimeFrame.minutes 1
    ∷ entry "5m" TimeFrame.minutes 5
    ∷ entry "15m" TimeFrame.minutes 15
    ∷ entry "30m" TimeFrame.minutes 30
    ∷ entry "1h" TimeFrame.minutes 60
    ∷ entry "2h" TimeFrame.minutes 120
    ∷ entry "4h" TimeFrame.minutes 240
    ∷ entry "1d" TimeFrame.days 1
    ∷ entry "1w" TimeFrame.weeks 1
    ∷ entry "1M" TimeFrame.months 1
    ∷ []

-- The underlying value of the enumerator.
abbrev pub tf_number : TimeFrame → ℕ
tf_number TimeFrame.tick = 0
tf_number TimeFrame.seconds = 1
tf_number TimeFrame.minutes = 2
tf_number TimeFrame.days = 3
tf_number TimeFrame.weeks = 4
tf_number TimeFrame.months = 5
tf_number TimeFrame.years = 6

unfoldable pub same_tfc : TimeFrameCompression → TimeFrameCompression → Bool
same_tfc a b = (tf_number a.timeframe == tf_number b.timeframe) && eqb_ℤ a.compression b.compression

unfoldable pub parse_in : List IntervalToken → String → Expected TimeFrameCompression
parse_in [] token = unexpected DataError.invalid_interval
parse_in (e ∷ es) token = if str_eq e.token token then value e.tfc else parse_in es token

unfoldable pub parse_interval : String → Expected TimeFrameCompression
unfolding parse_in interval_vocabulary
parse_interval = parse_in interval_vocabulary

unfoldable pub token_in : List IntervalToken → TimeFrameCompression → String
unfolding same_tfc
token_in [] tfc = ""
token_in (e ∷ es) tfc = if same_tfc e.tfc tfc then e.token else token_in es tfc

unfoldable pub to_string : TimeFrameCompression → String
unfolding token_in interval_vocabulary
to_string = token_in interval_vocabulary

unfoldable pub finer_than : TimeFrameCompression → TimeFrameCompression → Bool
finer_than a b =
    if not (tf_number a.timeframe == tf_number b.timeframe)
    then ltb (tf_number a.timeframe) (tf_number b.timeframe)
    else ltb_ℤ a.compression b.compression

-- In seconds.
unfoldable pub duration_of : TimeFrameCompression → Throws ℤ
unfolding ◌*ℤ◌
duration_of tfc =
    if leb_ℤ tfc.compression (pos 0)
    then throws "duration_of: compression must be positive"
    else elim tfc.timeframe [
      | TimeFrame.minutes ↦ returns (tfc.compression *ℤ pos 60)
      | TimeFrame.days ↦ returns (tfc.compression *ℤ pos 86400)
      | _ ↦ throws "duration_of: variable-span timeframe; use period_start/period_end"
    ]

-- The ticks of a second, the month of a day since 1970, and the first day of a month. Months are
-- counted from any fixed one, as `year_month + months` does.
pub record CivilCalendar : Type 0 where
  pub per_second : ℕ
  pub month_of : ℤ → ℤ
  pub first_of : ℤ → ℤ

-- What the bucket of `period_start` is: `/` and `%` round towards nought.
unfoldable pub floor_bucket : ℤ → ℤ → ℤ
unfolding ◌*ℤ◌ ◌-ℤ◌
floor_bucket sec span =
    let bucket = quot sec span in
    if not (eqb_ℤ (sec -ℤ bucket *ℤ span) (pos 0)) && ltb_ℤ sec (pos 0)
    then bucket -ℤ pos 1
    else bucket

abbrev pub day_ticks : CivilCalendar → ℕ
day_ticks c = c.per_second * 86400

-- Days since Monday: 1970 began on a Thursday.
unfoldable pub since_monday : ℤ → ℤ
unfolding floor_div ◌+ℤ◌ ◌-ℤ◌ ◌*ℤ◌
since_monday day = (day +ℤ pos 3) -ℤ floor_div (day +ℤ pos 3) 7 *ℤ pos 7

unfoldable pub fixed_start : CivilCalendar → DateTime → ℤ → DateTime
unfolding floor_bucket floor_div ◌*ℤ◌
fixed_start c t span = (floor_bucket (floor_div t c.per_second) span *ℤ span) *ℤ pos c.per_second

unfoldable pub week_start : CivilCalendar → DateTime → DateTime
unfolding since_monday floor_div ◌-ℤ◌ ◌*ℤ◌
week_start c t =
    let day = floor_div t (day_ticks c) in (day -ℤ since_monday day) *ℤ pos (day_ticks c)

unfoldable pub month_start : CivilCalendar → DateTime → DateTime
unfolding floor_div ◌*ℤ◌
month_start c t = c.first_of (c.month_of (floor_div t (day_ticks c))) *ℤ pos (day_ticks c)

unfoldable pub period_start : CivilCalendar → DateTime → TimeFrameCompression → Throws DateTime
unfolding duration_of fixed_start week_start month_start
period_start c t tfc = elim tfc.timeframe [
  | TimeFrame.minutes ↦ duration_of tfc >>= λ span. returns (fixed_start c t span)
  | TimeFrame.days ↦ duration_of tfc >>= λ span. returns (fixed_start c t span)
  | TimeFrame.weeks ↦
      if eqb_ℤ tfc.compression (pos 1)
      then returns (week_start c t)
      else throws "period_start: weeks support compression 1 only"
  | TimeFrame.months ↦
      if eqb_ℤ tfc.compression (pos 1)
      then returns (month_start c t)
      else throws "period_start: months support compression 1 only"
  | _ ↦ throws "period_start: timeframe outside the canonical vocabulary"
]

unfoldable pub step_from : CivilCalendar → TimeFrameCompression → ℤ → DateTime → Throws DateTime
unfolding duration_of floor_div ◌+ℤ◌ ◌*ℤ◌
step_from c tfc n start = elim tfc.timeframe [
  | TimeFrame.minutes ↦
      duration_of tfc >>= λ span. returns (start +ℤ (n *ℤ span) *ℤ pos c.per_second)
  | TimeFrame.days ↦ duration_of tfc >>= λ span. returns (start +ℤ (n *ℤ span) *ℤ pos c.per_second)
  | TimeFrame.weeks ↦ returns (start +ℤ (n *ℤ pos 7) *ℤ pos (day_ticks c))
  | TimeFrame.months ↦
      returns (c.first_of (c.month_of (floor_div start (day_ticks c)) +ℤ n) *ℤ pos (day_ticks c))
  | _ ↦ throws "advance_periods: timeframe outside the canonical vocabulary"
]

unfoldable pub advance_periods :
    CivilCalendar → DateTime → TimeFrameCompression → ℤ → Throws DateTime
unfolding period_start step_from
advance_periods c t tfc n = period_start c t tfc >>= step_from c tfc n

unfoldable pub period_end : CivilCalendar → DateTime → TimeFrameCompression → Throws DateTime
unfolding advance_periods
period_end c t tfc = advance_periods c t tfc (pos 1)
