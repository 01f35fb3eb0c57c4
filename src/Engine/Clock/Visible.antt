-- ===== src/Engine/Clock/Visible.antt =====
-- What the engine shows of a context feed: the bars that are closed, and no others.
use strat_forge.Common.{
  ℕ, zero, suc, ◌+◌, ◌<◌, ◌≤◌, true, false, Option, none, some, List, [], ◌∷◌, ◌≡◌, ◌⊎◌, inl, inr,
  refl, arith, Bool-cases, Option-cases, length, get_elem?, ltb, All,
}
use strat_forge.Common.Int.{◌≤ℤ◌, leb_ℤ}
use strat_forge.Common.Throws.{value_or, Throws, returns}
use strat_forge.Broker.Currency.{DateTime}
use strat_forge.Data.Resampler.{Bar}
use strat_forge.Data.Interval.{CivilCalendar, TimeFrameCompression, period_end}
use strat_forge.Engine.Clock.{
  Clocked, advance_feed, take_bar, deliver, deliver_all, bars_left, unflagged,
}

-- The end of the period, for a time frame that has periods.
unfoldable pub end_time : CivilCalendar → TimeFrameCompression → DateTime → DateTime
end_time c tfc t = value_or (period_end c t tfc) t

abbrev pub HasPeriods : CivilCalendar → TimeFrameCompression → Type 0
HasPeriods c tfc = (t : DateTime) → period_end c t tfc ≡ returns (end_time c tfc t)

module _ {W : Type 0} (c : CivilCalendar) where
  abbrev pub ClosedBy : DateTime → Clocked W → Bar W → Type 0
  ClosedBy time f row = end_time c f.timeframe row.datetime ≤ℤ time

  -- The bar is there and ends after the time, or there is no bar.
  abbrev pub OpenAt : DateTime → Clocked W → Option (Bar W) → Type 0
  OpenAt time f none = Unit
  OpenAt time f (some row) = leb_ℤ (end_time c f.timeframe row.datetime) time ≡ false

  -- The cursor of the engine, the count and the cursor of the lines go together: the lines show the
  -- last bar that was delivered. Each delivered bar is closed by the time.
  pub record IsGated (time : DateTime) (f : Clocked W) : Type 0 where
    pub counted : f.context_cursor ≡ f.bars_delivered
    pub shown : suc f.index ≡ f.bars_delivered ⊎ ((f.index ≡ 0) × (f.bars_delivered ≡ 0))
    pub within : f.bars_delivered ≤ length f.rows
    pub closed :
        (j : ℕ) (row : Bar W)
        → j < f.bars_delivered
        → get_elem? f.rows j ≡ some row
        → ClosedBy time f row

  pub lt_of_get :
      (rows : List (Bar W)) (i : ℕ) (row : Bar W) → get_elem? rows i ≡ some row → i < length rows
  lt_of_get [] i row h = absurd (cc h)
  lt_of_get (x ∷ xs) zero row h = omega arith
  lt_of_get (x ∷ xs) (suc i) row h = omega (arith, lt_of_get xs i row h)

  abbrev delivered : Clocked W → Clocked W
  delivered f = record f {
    index = f.bars_delivered;
    context_cursor = suc f.bars_delivered;
    bars_delivered = suc f.bars_delivered;
    feed_advanced = true;
  }

  take_bar-delivered :
      (time : DateTime) (f : Clocked W)
      → IsGated time f
      → f.context_cursor < length f.rows
      → take_bar f ≡ delivered f
  unfolding take_bar advance_feed
  take_bar-delivered time f g h = ground arith

  -- The new bar is the one that the cursor was on.
  delivered-IsGated :
      (time : DateTime) (f : Clocked W) (row : Bar W)
      → IsGated time f
      → get_elem? f.rows f.bars_delivered ≡ some row
      → ClosedBy time f row
      → IsGated time (delivered f)
  delivered-IsGated time f row g h e = record {
    counted = refl;
    shown = inl refl;
    within = omega (arith, lt_of_get f.rows f.bars_delivered row h);
    closed = λ j row' l at. elim (Bool-cases (ltb j f.bars_delivered)) [
      | inl t ↦ g.closed j row' (ground arith) at
      | inr t ↦
          let same : j ≡ f.bars_delivered = ground arith in
          let found : row' ≡ row = cc (rw same at at) in rw found e
    ];
  }

  -- What the loop over a context feed leaves: gated by the time, with the next bar still open.
  abbrev pub Caught : DateTime → Clocked W → Type 0
  Caught time f = IsGated time f × OpenAt time f (get_elem? f.rows f.bars_delivered)

  abbrev pub Delivers : DateTime → Clocked W → Throws (Clocked W) → Type 0
  Delivers time f r =
      (f' : Clocked W) × (r ≡ returns f')
      × Caught time f'
      × (f'.rows ≡ f.rows)
      × (f'.timeframe ≡ f.timeframe)

  none_left : (rows : List (Bar W)) (i : ℕ) → length rows ≤ i → get_elem? rows i ≡ none
  none_left [] i h = refl
  none_left (x ∷ xs) zero h = absurd (omega (arith, h))
  none_left (x ∷ xs) (suc i) h = none_left xs i (omega (arith, h))

  stays :
      (time : DateTime) (f : Clocked W) (o : Option (Bar W))
      → IsGated time f
      → get_elem? f.rows f.context_cursor ≡ o
      → OpenAt time f o
      → Delivers time f (returns f)
  stays time f o g e h =
      let e' : get_elem? f.rows f.bars_delivered ≡ o = rw (← g.counted) e in
      (f, refl, (g, rw e' h), refl, refl)

  deliver-Delivers :
      (time : DateTime) (left : ℕ) (f : Clocked W)
      → HasPeriods c f.timeframe
      → IsGated time f
      → length f.rows ≤ f.context_cursor + left
      → Delivers time f (deliver c time left f)
  unfolding deliver
  deliver-Delivers time zero f p g h =
      stays time f none g (none_left f.rows f.context_cursor (omega (arith, h))) tt
  deliver-Delivers time (suc left) f p g h =
      elim (Option-cases (get_elem? f.rows f.context_cursor)) [
        | inl none_there ↦ rw none_there (stays time f none g none_there tt)
        | inr (row, there) ↦ elim (Bool-cases (leb_ℤ (end_time c f.timeframe row.datetime) time)) [
          | inl closed ↦
              let moved =
                take_bar-delivered time f g (lt_of_get f.rows f.context_cursor row there) in
              let here = delivered-IsGated time f row g (rw g.counted at there) (ground arith) in
              let rest =
                deliver-Delivers time left (delivered f) p here (omega (arith, h, g.counted)) in
              rw (there, p row.datetime, closed, moved) rest
          | inr open_yet ↦
              rw (there, p row.datetime, open_yet) (stays time f (some row) g there open_yet)
        ]
      ]

  pub raise :
      (time later : DateTime) (f : Clocked W) → time ≤ℤ later → IsGated time f → IsGated later f
  raise time later f h g = record {
    counted = g.counted;
    shown = g.shown;
    within = g.within;
    closed = λ j row l at. omega (arith, g.closed j row l at, h);
  }

  unflagged-IsGated :
      (time : DateTime) (f : Clocked W) → IsGated time f → IsGated time (unflagged f)
  unflagged-IsGated time f g = record {
    counted = g.counted;
    shown = g.shown;
    within = g.within;
    closed = g.closed;
  }

  abbrev pub AllCaught : DateTime → List (Clocked W) → List (Clocked W) → Type 0
  AllCaught time [] [] = Unit
  AllCaught time (f ∷ fs) (f' ∷ fs') =
      Caught time f' × (f'.rows ≡ f.rows) × (f'.timeframe ≡ f.timeframe) × AllCaught time fs fs'
  AllCaught time fs fs' = ⊥

  pub deliver_all-Caught :
      (time : DateTime) (fs : List (Clocked W))
      → All (λ f. HasPeriods c f.timeframe) fs
      → All (IsGated time) fs
      → (fs' : List (Clocked W)) × (deliver_all c time fs ≡ returns fs') × AllCaught time fs fs'
  unfolding deliver_all
  deliver_all-Caught time [] p g = ([], refl, tt)
  deliver_all-Caught time (f ∷ fs) p g =
      let (f', e, caught, rows, tf) =
        deliver-Delivers time (bars_left f) (unflagged f) p.0 (unflagged-IsGated time f g.0)
          (omega arith) in
      let (fs', es, more) = deliver_all-Caught time fs p.1 g.1 in
      (f' ∷ fs', rw (e, es), (caught, rows, tf, more))
