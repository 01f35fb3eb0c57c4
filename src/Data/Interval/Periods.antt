-- ===== src/Data/Interval/Periods.antt =====
-- The periods of every time frame that `period_start` accepts are the cells of a grid on the clock.
use strat_forge.Common.{ℕ, ◌*◌, ◌<◌, ◌≡◌, ap, sym, refl, arith, true, false, ◌∙◌}
use strat_forge.Common.Int.{ℤ, pos, negsuc, ◌+ℤ◌, ◌-ℤ◌, ◌*ℤ◌, int_laws, leb_ℤ, eq_of_parts}
use strat_forge.Common.Throws.{returns}
use strat_forge.Double.Lots.{lots, lots-IsExact}
use strat_forge.Broker.Currency.{DateTime}
use strat_forge.Data.Resampler.{TimeFrame, floor_div}
use strat_forge.Data.Interval.{
  TimeFrameCompression, CivilCalendar, day_ticks, duration_of, since_monday, fixed_start,
  week_start, month_start, period_start, step_from, advance_periods,
}
use strat_forge.Data.Interval.Floors.{floor-bucket}
use strat_forge.Data.Interval.Grid.{IsGrid, floor_exact, floor-IsGrid, scaled-IsGrid, week-IsGrid}
use strat_forge.Data.Interval.Refused.{of, accepted}

module _ (c : CivilCalendar) where
  -- What the periods of a time frame are: a grid whose cells `period_start` gives the start of and
  -- `advance_periods` counts.
  pub record IsPeriodic (tfc : TimeFrameCompression) (bucket start : ℤ → ℤ) : Type 0 where
    pub grid : IsGrid bucket start
    pub starts : (t : DateTime) → period_start c t tfc ≡ returns (start (bucket t))
    pub advances :
        (t : DateTime) (n : ℤ) → advance_periods c t tfc n ≡ returns (start (bucket t +ℤ n))

  abbrev pub Periods : TimeFrameCompression → Type 0
  Periods tfc = (bucket : ℤ → ℤ) × (start : ℤ → ℤ) × IsPeriodic tfc bucket start

module _ (c : CivilCalendar) (running : 0 < c.per_second)
    (civil : IsGrid c.month_of c.first_of) where
  days_pos : 0 < day_ticks c
  days_pos = omega arith

  fixed-start :
      (t : DateTime) (m : ℕ)
      → 0 < m
      → fixed_start c t (pos m)
        ≡ (floor_div (floor_div t c.per_second) m *ℤ pos m) *ℤ pos c.per_second
  unfolding fixed_start
  fixed-start t m h = rw (floor-bucket (floor_div t c.per_second) m h)

  add_scaled : (b n : ℤ) (m : ℕ) → (b *ℤ pos m) +ℤ (n *ℤ pos m) ≡ (b +ℤ n) *ℤ pos m
  add_scaled b n m = sym (lots-IsExact.add_mul b n (pos m))

  week-start :
      (t : DateTime)
      → week_start c t
        ≡ ((floor_div (floor_div t (day_ticks c) +ℤ pos 3) 7 *ℤ pos 7) -ℤ pos 3)
          *ℤ pos (day_ticks c)
  unfolding week_start since_monday
  week-start t =
      let day = floor_div t (day_ticks c) in
      let week = floor_div (day +ℤ pos 3) 7 in
      let monday : day -ℤ ((day +ℤ pos 3) -ℤ week *ℤ pos 7) ≡ (week *ℤ pos 7) -ℤ pos 3 =
        omega int_laws in
      ap (λ x. x *ℤ pos (day_ticks c)) monday

  -- Minutes and days: cells of m seconds.
  fixed-IsPeriodic :
      (tf : TimeFrame) (n : ℤ) (m : ℕ)
      → let tfc = of tf n in
        duration_of tfc ≡ returns (pos m)
        → 0 < m
        → ((t : DateTime) → period_start c t tfc ≡ returns (fixed_start c t (pos m)))
        → ((t : DateTime) (k : ℤ)
            → step_from c tfc k t ≡ returns (t +ℤ (k *ℤ pos m) *ℤ pos c.per_second))
        → IsPeriodic c tfc
            (λ t. floor_div (floor_div t c.per_second) m)
            (λ k. (k *ℤ pos m) *ℤ pos c.per_second)
  unfolding advance_periods
  fixed-IsPeriodic tf n m e h s a = record {
    grid =
        scaled-IsGrid c.per_second (λ x. floor_div x m) (λ k. k *ℤ pos m) running
          (floor-IsGrid m h);
    starts = λ t. rw (← fixed-start t m h) (s t);
    advances = λ t k.
        let b = floor_div (floor_div t c.per_second) m in
        rw (s t, a (fixed_start c t (pos m)) k, fixed-start t m h)
          (ap returns (
            add_scaled (b *ℤ pos m) (k *ℤ pos m) c.per_second
            ∙ ap (λ x. x *ℤ pos c.per_second) (add_scaled b k m)));
  }

  week-IsPeriodic :
      IsPeriodic c
        (of TimeFrame.weeks (pos 1))
        (λ t. floor_div (floor_div t (day_ticks c) +ℤ pos 3) 7)
        (λ k. ((k *ℤ pos 7) -ℤ pos 3) *ℤ pos (day_ticks c))
  unfolding period_start advance_periods step_from
  week-IsPeriodic = record {
    grid =
        scaled-IsGrid (day_ticks c) (λ day. floor_div (day +ℤ pos 3) 7) (λ k. (k *ℤ pos 7) -ℤ pos 3)
          days_pos week-IsGrid;
    starts = λ t. ap returns (week-start t);
    advances = λ t n.
        let b = floor_div (floor_div t (day_ticks c) +ℤ pos 3) 7 in
        let steps : ((b *ℤ pos 7) -ℤ pos 3) +ℤ n *ℤ pos 7 ≡ ((b +ℤ n) *ℤ pos 7) -ℤ pos 3 =
          omega int_laws in
        ap returns (
          ap (λ x. x +ℤ (n *ℤ pos 7) *ℤ pos (day_ticks c)) (week-start t)
          ∙ (add_scaled ((b *ℤ pos 7) -ℤ pos 3) (n *ℤ pos 7) (day_ticks c)
              ∙ ap (λ x. x *ℤ pos (day_ticks c)) steps));
  }

  month-IsPeriodic :
      IsPeriodic c
        (of TimeFrame.months (pos 1))
        (λ t. c.month_of (floor_div t (day_ticks c)))
        (λ k. c.first_of k *ℤ pos (day_ticks c))
  unfolding period_start advance_periods step_from month_start
  month-IsPeriodic = record {
    grid = scaled-IsGrid (day_ticks c) c.month_of c.first_of days_pos civil;
    starts = λ t. refl;
    advances = λ t n.
        let m = c.month_of (floor_div t (day_ticks c)) in
        ap (λ x. returns (c.first_of (x +ℤ n) *ℤ pos (day_ticks c)))
          (ap c.month_of (floor_exact (c.first_of m) (day_ticks c) days_pos) ∙ civil.exact m);
  }

  pub minutes_span :
      (n : ℕ) → 0 < n → duration_of (of TimeFrame.minutes (pos n)) ≡ returns (pos (n * 60))
  unfolding duration_of
  minutes_span n h =
      let some_span : leb_ℤ (pos n) (pos 0) ≡ false = ground arith in
      let span : pos n *ℤ pos 60 ≡ pos (n * 60) = omega int_laws in rw some_span (ap returns span)

  pub days_span :
      (n : ℕ) → 0 < n → duration_of (of TimeFrame.days (pos n)) ≡ returns (pos (n * 86400))
  unfolding duration_of
  days_span n h =
      let some_span : leb_ℤ (pos n) (pos 0) ≡ false = ground arith in
      let span : pos n *ℤ pos 86400 ≡ pos (n * 86400) = omega int_laws in
      rw some_span (ap returns span)

  minutes-Periods : (n : ℕ) → 0 < n → Periods c (of TimeFrame.minutes (pos n))
  unfolding period_start step_from
  minutes-Periods n h =
      let span = minutes_span n h in
      (
        _,
        _,
        fixed-IsPeriodic TimeFrame.minutes (pos n) (n * 60) span (omega arith) (λ t. rw span)
            (λ t k. rw span),
      )

  days-Periods : (n : ℕ) → 0 < n → Periods c (of TimeFrame.days (pos n))
  unfolding period_start step_from
  days-Periods n h =
      let span = days_span n h in
      (
        _,
        _,
        fixed-IsPeriodic TimeFrame.days (pos n) (n * 86400) span (omega arith) (λ t. rw span)
            (λ t k. rw span),
      )

  tf-Periods : (tf : TimeFrame) (n : ℤ) → accepted (of tf n) ≡ true → Periods c (of tf n)
  tf-Periods TimeFrame.minutes (pos n) h = minutes-Periods n (ground arith)
  tf-Periods TimeFrame.days (pos n) h = days-Periods n (ground arith)
  tf-Periods TimeFrame.weeks n h =
      let one : n ≡ pos 1 = ground (arith, eq_of_parts n (pos 1)) in rw one (_, _, week-IsPeriodic)
  tf-Periods TimeFrame.months n h =
      let one : n ≡ pos 1 = ground (arith, eq_of_parts n (pos 1)) in rw one (_, _, month-IsPeriodic)
  tf-Periods TimeFrame.minutes (negsuc n) h = absurd (ground arith)
  tf-Periods TimeFrame.days (negsuc n) h = absurd (ground arith)
  tf-Periods TimeFrame.tick n h = absurd (cc h)
  tf-Periods TimeFrame.seconds n h = absurd (cc h)
  tf-Periods TimeFrame.years n h = absurd (cc h)

  -- With a running clock and months that follow one another without gap: the periods of an accepted
  -- time frame are the cells of a grid, in which `period_start` gives the start of a time's cell and
  -- `advance_periods` the start of the cell that is n cells on.
  pub period-Grid : (tfc : TimeFrameCompression) → accepted tfc ≡ true → Periods c tfc
  period-Grid tfc h = tf-Periods tfc.timeframe tfc.compression h
