-- ===== src/Data/Resampler.antt =====
-- include/stratforge/data/resampler.hpp: bars of a source merged into bars of a longer time frame.
-- The clock's ticks per second and the calendar of std::chrono are parameters; the compression is positive.
pub mod Merge
use Prim.Native.Nat.{◌/◌}
use strat_forge.Common.{
  ℕ, suc, ◌+◌, ◌*◌, Bool, true, false, ◌&&◌, not, Option, none, some, List, [], ◌∷◌, ◌++◌,
  if◌then◌else◌,
}
use strat_forge.Common.Int.{ℤ, pos, negsuc, ◌+ℤ◌, ◌-ℤ◌, ◌*ℤ◌, eqb_ℤ}
use strat_forge.Double.{Double, ◌⊕◌, nought, fmin, fmax}
use strat_forge.Double.Lots.{quot}
use strat_forge.Broker.Currency.{DateTime}

pub data TimeFrame : Type 0 where
  tick seconds minutes days weeks months years : TimeFrame

-- A row of a feed's columns.
pub record Bar (W : Type 0) : Type 0 where
  pub datetime : DateTime
  pub open_price : W
  pub high : W
  pub low : W
  pub close : W
  pub volume : W
  pub openinterest : W

-- The ticks of a second, and the year and the month of a day since 1970.
pub record Clock : Type 0 where
  pub per_second : ℕ
  pub year_month : ℤ → ℤ × ℕ

pub record Target : Type 0 where
  pub target_tf : TimeFrame
  pub target_compression : ℕ

unfoldable pub floor_div : ℤ → ℕ → ℤ
floor_div (pos a) n = pos (a / n)
floor_div (negsuc a) n = negsuc (a / n)

abbrev pub ticks_of_day : Clock → ℕ
ticks_of_day c = c.per_second * 86400

unfoldable pub day_of : Clock → DateTime → ℤ
unfolding floor_div
day_of c dt = floor_div dt (ticks_of_day c)

unfoldable pub start_of_day : Clock → DateTime → DateTime
unfolding day_of ◌*ℤ◌
start_of_day c dt = day_of c dt *ℤ pos (ticks_of_day c)

-- The whole minutes since the day began.
unfoldable pub minute_of_day : Clock → DateTime → ℤ
unfolding start_of_day floor_div ◌-ℤ◌
minute_of_day c dt = floor_div (dt -ℤ start_of_day c dt) (c.per_second * 60)

unfoldable pub get_bucket : Clock → Target → DateTime → ℤ
unfolding day_of minute_of_day ◌+ℤ◌ ◌*ℤ◌
get_bucket c t dt = elim t.target_tf [
  | TimeFrame.minutes ↦
      (day_of c dt *ℤ pos 10000) +ℤ quot (minute_of_day c dt) (pos t.target_compression)
  | TimeFrame.days ↦ quot (day_of c dt) (pos t.target_compression)
  | TimeFrame.weeks ↦ quot (day_of c dt +ℤ pos 3) (pos 7)
  | TimeFrame.months ↦
      ((c.year_month (day_of c dt)).0 *ℤ pos 12) +ℤ pos (c.year_month (day_of c dt)).1
  | _ ↦ dt
]

unfoldable pub end_of_day : Clock → DateTime → DateTime
unfolding start_of_day ◌+ℤ◌
end_of_day c dt = start_of_day c dt +ℤ pos (c.per_second * 86399)

abbrev pub is_minutes : TimeFrame → Bool
is_minutes TimeFrame.minutes = true
is_minutes _ = false

-- `get_bucket_timestamp` for minutes: the end of the bucket.
unfoldable pub slot_end : Clock → Target → DateTime → DateTime
unfolding start_of_day minute_of_day ◌+ℤ◌ ◌*ℤ◌
slot_end c t dt =
    let slots = quot (minute_of_day c dt) (pos t.target_compression) +ℤ pos 1 in
    start_of_day c dt +ℤ (slots *ℤ pos t.target_compression) *ℤ pos (c.per_second * 60)

unfoldable pub compute_bar_timestamp : Clock → Target → DateTime → DateTime
unfolding slot_end end_of_day
compute_bar_timestamp c t dt = if is_minutes t.target_tf then slot_end c t dt else end_of_day c dt

-- The time of a bar that the next bar's bucket ends.
unfoldable pub ended_at : Clock → Target → DateTime → DateTime → DateTime
unfolding day_of end_of_day compute_bar_timestamp
ended_at c t last_dt dt =
    if is_minutes t.target_tf && not (eqb_ℤ (day_of c last_dt) (day_of c dt))
    then end_of_day c last_dt
    else compute_bar_timestamp c t last_dt

-- The bar that is being merged, with its bucket and the time of its last part.
pub record Merged (W : Type 0) : Type 0 where
  pub o : W
  pub h : W
  pub l : W
  pub c : W
  pub v : W
  pub current_bucket : ℤ
  pub last_dt : DateTime

module _ {W : Type 0} ⦃d : Double W⦄ where
  abbrev pub finished : Merged W → DateTime → Bar W
  finished m dt = record {
    datetime = dt;
    open_price = m.o;
    high = m.h;
    low = m.l;
    close = m.c;
    volume = m.v;
    openinterest = nought;
  }

  abbrev pub begin : Bar W → ℤ → W → Merged W
  begin bar bucket v = record {
    o = bar.open_price;
    h = bar.high;
    l = bar.low;
    c = bar.close;
    v = v;
    current_bucket = bucket;
    last_dt = bar.datetime;
  }

  unfoldable pub merge : Merged W → Bar W → ℤ → Merged W
  unfolding fmin fmax
  merge m bar bucket = record {
    o = m.o;
    h = fmax m.h bar.high;
    l = fmin m.l bar.low;
    c = bar.close;
    v = m.v ⊕ bar.volume;
    current_bucket = bucket;
    last_dt = bar.datetime;
  }

  -- The loop of `preload` from a bar in progress on, and the final bar.
  unfoldable pub resample_from : Clock → Target → Merged W → List (Bar W) → List (Bar W)
  unfolding get_bucket merge ended_at compute_bar_timestamp
  resample_from c t m [] = finished m (compute_bar_timestamp c t m.last_dt) ∷ []
  resample_from c t m (bar ∷ bars) =
      let bucket = get_bucket c t bar.datetime in
      let fresh = resample_from c t (begin bar bucket bar.volume) bars in
      let longer = resample_from c t (merge m bar bucket) bars in
      if eqb_ℤ bucket m.current_bucket
      then longer
      else finished m (ended_at c t m.last_dt bar.datetime) ∷ fresh

  unfoldable pub resample : Clock → Target → List (Bar W) → List (Bar W)
  unfolding resample_from get_bucket
  resample c t [] = []
  resample c t (bar ∷ bars) =
      resample_from c t (begin bar (get_bucket c t bar.datetime) (nought ⊕ bar.volume)) bars
