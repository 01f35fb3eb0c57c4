-- ===== src/Engine/Cerebro/Gated.antt =====
-- Through a run of `Cerebro`, every context feed shows the bars that are closed at the master bar's
-- close, and no others.
use strat_forge.Common.{
  ℕ, suc, ◌<◌, true, some, List, [], ◌∷◌, ◌≡◌, refl, arith, if◌then◌else◌, length, get_elem?, ltb,
  All,
}
use strat_forge.Common.Int.{ℤ, ◌≤ℤ◌}
use strat_forge.Common.Throws.{value_or, returns}
use strat_forge.Double.{Double}
use strat_forge.Broker.Currency.{DateTime}
use strat_forge.Data.Resampler.{Bar}
use strat_forge.Data.Interval.{CivilCalendar, TimeFrameCompression}
use strat_forge.Engine.Clock.{Clocked, advance_feed, advance_contexts, close_of, open_time}
use strat_forge.Engine.Clock.Visible.{
  HasPeriods, IsGated, AllCaught, deliver_all-Caught, raise, lt_of_get,
}
use strat_forge.Engine.Strategies.{Strategies}
use strat_forge.Engine.Cerebro.{Cerebro, bar_step}

-- When the bar of a time closes, for a time frame that has it.
unfoldable pub close_time : CivilCalendar → TimeFrameCompression → DateTime → DateTime
close_time c tfc t = value_or (close_of c tfc t) t

abbrev pub HasCloses : CivilCalendar → TimeFrameCompression → Type 0
HasCloses c tfc = (t : DateTime) → close_of c tfc t ≡ returns (close_time c tfc t)

module _ {S W : Type 0} ⦃d : Double W⦄ (c : CivilCalendar) (milliseconds : DateTime → ℤ)
    (user : Strategies S W) where
  -- The master bars close one after another.
  abbrev pub Rises : Clocked W → Type 0
  Rises f =
      (i : ℕ) (row next : Bar W)
      → get_elem? f.rows i ≡ some row
      → get_elem? f.rows (suc i) ≡ some next
      → close_time c f.timeframe row.datetime ≤ℤ close_time c f.timeframe next.datetime

  -- The engine before the bar i: the master's cursor is on it, and the contexts are gated by its close.
  pub record IsAt (i : ℕ) (e : Cerebro S W) : Type 0 where
    pub on_bar : i < length e.master.rows → e.master.index ≡ i
    pub rises : Rises e.master
    pub closes : HasCloses c e.master.timeframe
    pub periods : All (λ f. HasPeriods c f.timeframe) e.contexts
    pub gated :
        (row : Bar W)
        → get_elem? e.master.rows i ≡ some row
        → All (IsGated c (close_time c e.master.timeframe row.datetime)) e.contexts

  opened :
      (f : Clocked W) (row : Bar W)
      → get_elem? f.rows f.index ≡ some row
      → open_time f ≡ returns row.datetime
  unfolding open_time
  opened f row h = ground arith

  advance_contexts-Caught :
      (master : Clocked W) (row : Bar W) (fs : List (Clocked W))
      → get_elem? master.rows master.index ≡ some row
      → HasCloses c master.timeframe
      → All (λ f. HasPeriods c f.timeframe) fs
      → All (IsGated c (close_time c master.timeframe row.datetime)) fs
      → (fs' : List (Clocked W)) × (advance_contexts c master fs ≡ returns fs')
        × AllCaught c (close_time c master.timeframe row.datetime) fs fs'
  unfolding advance_contexts
  advance_contexts-Caught master row [] h p q g = ([], refl, tt)
  advance_contexts-Caught master row (f ∷ fs) h p q g =
      let (fs', e, caught) =
        deliver_all-Caught c (close_time c master.timeframe row.datetime) (f ∷ fs) q g in
      (fs', rw (opened master row h, p row.datetime, e), caught)

  abbrev pub Moved : ℕ → Clocked W → Clocked W
  Moved i f = record f {
    feed_advanced = true;
    bars_delivered = suc i;
    index = if ltb (suc i) (length f.rows) then suc i else f.index;
  }

  abbrev stepped : ℕ → Clocked W → Clocked W
  stepped i f =
      let f' = record f { feed_advanced = true; bars_delivered = suc i } in
      if ltb (suc i) (length f.rows) then advance_feed f' else f'

  stepped-Moved :
      (i : ℕ) (f : Clocked W) → i < length f.rows → f.index ≡ i → stepped i f ≡ Moved i f
  unfolding advance_feed
  stepped-Moved i f h k = ground arith

  IsGated-after :
      (time : DateTime) (later : DateTime) (fs fs' : List (Clocked W))
      → time ≤ℤ later
      → AllCaught c time fs fs'
      → All (IsGated c later) fs'
  IsGated-after time later [] [] h g = tt
  IsGated-after time later (f ∷ fs) (f' ∷ fs') h g =
      (raise c time later f' h g.0.0, IsGated-after time later fs fs' h g.3)
  IsGated-after time later [] (f' ∷ fs') h g = absurd g
  IsGated-after time later (f ∷ fs) [] h g = absurd g

  HasPeriods-after :
      (time : DateTime) (fs fs' : List (Clocked W))
      → AllCaught c time fs fs'
      → All (λ f. HasPeriods c f.timeframe) fs
      → All (λ f. HasPeriods c f.timeframe) fs'
  HasPeriods-after time [] [] g p = tt
  HasPeriods-after time (f ∷ fs) (f' ∷ fs') g p = (rw g.2 p.0, HasPeriods-after time fs fs' g.3 p.1)
  HasPeriods-after time [] (f' ∷ fs') g p = absurd g
  HasPeriods-after time (f ∷ fs) [] g p = absurd g

  pub bar_step-Caught :
      (i : ℕ) (e : Cerebro S W) (row : Bar W)
      → IsAt i e
      → get_elem? e.master.rows i ≡ some row
      → (e' : Cerebro S W) × (bar_step c milliseconds user i e ≡ returns e')
        × AllCaught c (close_time c e.master.timeframe row.datetime) e.contexts e'.contexts
        × (e'.master ≡ Moved i e.master)
        × IsAt (suc i) e'
  unfolding bar_step
  bar_step-Caught i e row at h =
      let inside = lt_of_get c e.master.rows i row h in
      let m = e.master in
      let m' = record m { feed_advanced = true; bars_delivered = suc i } in
      let here : get_elem? m'.rows m'.index ≡ some row = rw (at.on_bar inside) h in
      let (fs', got, caught) =
        advance_contexts-Caught m' row e.contexts here at.closes at.periods (at.gated row h) in
      rw (got, stepped-Moved i m inside (at.on_bar inside))
        (
          _,
          refl,
          caught,
          refl,
          record {
            on_bar = λ l. ground arith;
            rises = at.rises;
            closes = at.closes;
            periods = HasPeriods-after _ e.contexts fs' caught at.periods;
            gated =
                λ next there. IsGated-after _ _ e.contexts fs' (at.rises i row next h there) caught;
          },
        )
