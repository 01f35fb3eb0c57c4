-- ===== src/Engine/Cerebro/Visible.antt =====
-- From the start of a run of `Cerebro`: after every bar of the master, each context feed shows the bars
-- that are closed at the master bar's close, and no others.
use strat_forge.Common.{
  ℕ, zero, suc, ◌+◌, ◌<◌, true, some, List, [], ◌∷◌, ◌≡◌, inr, refl, ap, arith, ◌∙◌, length,
  get_elem?, All,
}
use strat_forge.Common.Int.{pos, negsuc, ◌*ℤ◌, ◌+ℤ◌, ℤ}
use strat_forge.Common.Throws.{returns-value_or, returns, ◌>>=◌}
use strat_forge.Double.{Double}
use strat_forge.Broker.Currency.{DateTime}
use strat_forge.Data.Resampler.{Bar}
use strat_forge.Data.Interval.{CivilCalendar, TimeFrameCompression, period_end}
use strat_forge.Engine.Clock.{Clocked, close_of}
use strat_forge.Engine.Clock.Visible.{end_time, HasPeriods, IsGated, AllCaught}
use strat_forge.Engine.Strategies.{Strategies}
use strat_forge.Engine.Cerebro.{Cerebro, run_bars}
use native.Mathlib.Omega.{arith}
use strat_forge.Data.Interval.Grid.{IsGrid}
use strat_forge.Data.Interval.Refused.{of, accepted}
use strat_forge.Data.Interval.Periods.{period-Grid, minutes_span, days_span}
use strat_forge.Engine.Cerebro.Gated.{close_time, HasCloses, Rises, IsAt, bar_step-Caught}
use strat_forge.Data.Resampler.{TimeFrame}

module _ {S W : Type 0} ⦃d : Double W⦄ (c : CivilCalendar) (milliseconds : DateTime → ℤ)
    (user : Strategies S W) where
  caught_trans :
      (time later : DateTime) (fs gs hs : List (Clocked W))
      → AllCaught c time fs gs
      → AllCaught c later gs hs
      → AllCaught c later fs hs
  caught_trans time later [] [] [] h k = tt
  caught_trans time later (f ∷ fs) (g ∷ gs) (x ∷ xs) h k =
      (k.0, k.1 ∙ h.1, k.2 ∙ h.2, caught_trans time later fs gs xs h.3 k.3)
  caught_trans time later [] [] (x ∷ xs) h k = absurd k
  caught_trans time later [] (g ∷ gs) hs h k = absurd h
  caught_trans time later (f ∷ fs) [] hs h k = absurd h
  caught_trans time later (f ∷ fs) (g ∷ gs) [] h k = absurd k

  abbrev pub RunsTo : ℕ → ℕ → Cerebro S W → Type 0
  RunsTo n i e =
      (e' : Cerebro S W) × (row : Bar W) × (run_bars c milliseconds user (suc n) i e ≡ returns e')
      × (get_elem? e.master.rows (i + n) ≡ some row)
      × AllCaught c (close_time c e.master.timeframe row.datetime) e.contexts e'.contexts

  row_there :
      (rows : List (Bar W)) (i : ℕ)
      → i < length rows
      → (row : Bar W) × (get_elem? rows i ≡ some row)
  row_there [] i h = absurd (omega (arith, h))
  row_there (x ∷ xs) zero h = (x, refl)
  row_there (x ∷ xs) (suc i) h = row_there xs i (omega (arith, h))

  run_bars-RunsTo :
      (n i : ℕ) (e : Cerebro S W)
      → IsAt c milliseconds user i e
      → i + n < length e.master.rows
      → RunsTo n i e
  unfolding run_bars
  run_bars-RunsTo zero i e at h =
      let (row, there) = row_there e.master.rows i (omega (arith, h)) in
      let (e', got, caught, moved, next) = bar_step-Caught c milliseconds user i e row at there in
      let same : i + 0 ≡ i = omega arith in (e', row, rw got, rw same there, caught)
  run_bars-RunsTo (suc n) i e at h =
      let (row, there) = row_there e.master.rows i (omega (arith, h)) in
      let (e', got, caught, moved, next) = bar_step-Caught c milliseconds user i e row at there in
      let (e'', last, ran, ends, more) =
        run_bars-RunsTo n (suc i) e' next (rw moved (omega (arith, h))) in
      let same : i + suc n ≡ suc i + n = omega arith in
      (
        e'',
        last,
        rw got ran,
        rw same (rw moved at ends),
        caught_trans _ _ e.contexts e'.contexts e''.contexts caught (rw moved at more),
      )

  -- Nothing is delivered yet.
  pub record IsFresh (f : Clocked W) : Type 0 where
    pub at_start : f.index ≡ 0
    pub no_cursor : f.context_cursor ≡ 0
    pub no_bars : f.bars_delivered ≡ 0

  fresh-IsGated : (time : DateTime) (f : Clocked W) → IsFresh f → IsGated c time f
  fresh-IsGated time f h = record {
    counted = omega (arith, h.no_cursor, h.no_bars);
    shown = inr (h.at_start, h.no_bars);
    within = omega (arith, h.no_bars);
    closed = λ j row l at. absurd (omega (arith, l, h.no_bars));
  }

  fresh-All : (time : DateTime) (fs : List (Clocked W)) → All IsFresh fs → All (IsGated c time) fs
  fresh-All time [] h = tt
  fresh-All time (f ∷ fs) h = (fresh-IsGated time f h.0, fresh-All time fs h.1)

  module _ (running : 0 < c.per_second) (civil : IsGrid c.month_of c.first_of) where
    accepted-HasPeriods : (tfc : TimeFrameCompression) → accepted tfc ≡ true → HasPeriods c tfc
    unfolding period_end end_time
    accepted-HasPeriods tfc h t =
        let (bucket, start, periodic) = period-Grid c running civil tfc h in
        returns-value_or (period_end c t tfc) _ t (periodic.advances t (pos 1))

    closes_of :
        (tf : TimeFrame) (n : ℤ) (t : DateTime)
        → accepted (of tf n) ≡ true
        → (e : DateTime) × (close_of c (of tf n) t ≡ returns e)
    unfolding close_of
    closes_of TimeFrame.minutes (pos n) t h = (
      _,
      ap (λ r. r >>= λ span. returns (t +ℤ span *ℤ pos c.per_second))
          (minutes_span c running civil n (ground arith)),
    )
    closes_of TimeFrame.days (pos n) t h = (
      _,
      ap (λ r. r >>= λ span. returns (t +ℤ span *ℤ pos c.per_second))
          (days_span c running civil n (ground arith)),
    )
    closes_of TimeFrame.weeks n t h = (_, accepted-HasPeriods (of TimeFrame.weeks n) h t)
    closes_of TimeFrame.months n t h = (_, accepted-HasPeriods (of TimeFrame.months n) h t)
    closes_of TimeFrame.minutes (negsuc n) t h = absurd (ground arith)
    closes_of TimeFrame.days (negsuc n) t h = absurd (ground arith)
    closes_of TimeFrame.tick n t h = absurd (cc h)
    closes_of TimeFrame.seconds n t h = absurd (cc h)
    closes_of TimeFrame.years n t h = absurd (cc h)

    accepted-HasCloses : (tfc : TimeFrameCompression) → accepted tfc ≡ true → HasCloses c tfc
    unfolding close_time
    accepted-HasCloses tfc h t =
        let (e, ends) = closes_of tfc.timeframe tfc.compression t h in
        returns-value_or (close_of c tfc t) e t ends

    All-HasPeriods :
        (fs : List (Clocked W))
        → All (λ f. accepted f.timeframe ≡ true) fs
        → All (λ f. HasPeriods c f.timeframe) fs
    All-HasPeriods [] h = tt
    All-HasPeriods (f ∷ fs) h = (accepted-HasPeriods f.timeframe h.0, All-HasPeriods fs h.1)

    -- With a running clock and months that follow one another without gap: take a master feed on its
    -- first bar, whose bars' closes never fall, and context feeds with nothing delivered yet, all of
    -- accepted time frames. For every n below the number of master bars, the loop
    -- runs through bar n without an exception, and then each context feed has its bars and its time
    -- frame as before; its engine cursor is the count of its delivered bars; its lines are on the
    -- last of these; each of these ends by the close of bar n; and the next one, if there is one,
    -- ends after it.
    pub run_bars-Visible :
        (e : Cerebro S W) (n : ℕ)
        → accepted e.master.timeframe ≡ true
        → All (λ f. accepted f.timeframe ≡ true) e.contexts
        → Rises c milliseconds user e.master
        → e.master.index ≡ 0
        → All IsFresh e.contexts
        → n < length e.master.rows
        → RunsTo n 0 e
    run_bars-Visible e n m a rises start fresh h =
        run_bars-RunsTo n 0 e
          (record {
            on_bar = λ l. start;
            rises = rises;
            closes = accepted-HasCloses e.master.timeframe m;
            periods = All-HasPeriods e.contexts a;
            gated = λ row there.
                fresh-All (close_time c e.master.timeframe row.datetime) e.contexts fresh;
          })
          (omega (arith, h))
