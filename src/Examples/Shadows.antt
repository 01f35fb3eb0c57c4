-- ===== src/Examples/Shadows.antt =====
-- Two rejected candidates in the shadow ledger, one with a horizon of two bars.
use strat_forge.Common.{ℕ, ◌+◌, List, [], ◌∷◌, ◌++◌, ◌≡◌, refl}
use strat_forge.Common.Int.{ℤ, pos, ◌*ℤ◌}
use strat_forge.Double.Lots.{lots}
use strat_forge.Broker.Currency.{DateTime}
use strat_forge.Corrective.Shadow.{ShadowEntry, Call, calls, tick, close_shadow}
use strat_forge.Corrective.Shadow.Once.{count, open_ids, reported, added, calls-once}
use strat_forge.Corrective.Shadow.Horizon.{held_at, calls-horizon}
use strat_forge.Examples.Data.{bar, late_bar}

-- A clock that ticks every hundred nanoseconds.
abbrev hundreds : DateTime → ℤ
hundreds t = pos 100 *ℤ t

abbrev candidate : ℕ → ℕ → ShadowEntry ℤ
candidate id horizon = record {
  candidate_id = id;
  data_index = 0;
  entry_price = pos 10;
  size = pos 3;
  entry_bar = 3;
  entry_timestamp_ns = 600;
  commission_per_side = pos 1;
  horizon_bars = horizon;
  bars_held = 0;
}

abbrev shadowing : List (Call ℤ)
shadowing =
    Call.adds (candidate 4 2)
    ∷ Call.ticks (bar ∷ [])
    ∷ Call.adds (candidate 5 0)
    ∷ Call.ticks (late_bar ∷ [])
    ∷ Call.flushes (bar ∷ [])
    ∷ []

shadowing_reports : reported (calls hundreds shadowing []).1 ≡ 4 ∷ 5 ∷ []
unfolding calls tick
shadowing_reports = refl

calls-once_example :
    count 4 (open_ids (calls hundreds shadowing []).0)
      + count 4 (reported (calls hundreds shadowing []).1)
    ≡ count 4 (added shadowing)
calls-once_example = calls-once hundreds 4 shadowing

-- Two more candidates stand around the entry, and the first of them comes due while it waits.
abbrev waiting : List (Call ℤ)
waiting = Call.ticks (bar ∷ []) ∷ Call.adds (candidate 7 3) ∷ Call.ticks (bar ∷ []) ∷ []

calls-horizon_example :
    (xs : List (ShadowEntry ℤ)) × (ys : List (ShadowEntry ℤ)) × ((calls hundreds waiting
        (candidate 5 1 ∷ candidate 4 3 ∷ candidate 6 9 ∷ [])).0
      ≡ xs ++ (held_at (candidate 4 3) 2 ∷ ys))
    × (tick hundreds
          (late_bar ∷ [])
          (calls hundreds waiting (candidate 5 1 ∷ candidate 4 3 ∷ candidate 6 9 ∷ [])).0
        ≡ (
          (tick hundreds (late_bar ∷ []) xs).0 ++ (tick hundreds (late_bar ∷ []) ys).0,
          (tick hundreds (late_bar ∷ []) xs).1
              ++ (close_shadow hundreds (held_at (candidate 4 3) 3) (late_bar ∷ [])
                  ∷ (tick hundreds (late_bar ∷ []) ys).1),
        ))
calls-horizon_example =
    calls-horizon hundreds (candidate 4 3) (candidate 5 1 ∷ []) (candidate 6 9 ∷ []) waiting
      (late_bar ∷ []) 2 (tt, (tt, (tt, tt))) refl refl
