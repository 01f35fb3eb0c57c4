-- ===== src/Analyzers/Trades/Streaks.antt =====
-- The longest streaks of the analysis.
use strat_forge.Common.{
  ℕ, suc, ◌+◌, ◌≤◌, max, Bool, true, false, not, List, [], ◌∷◌, ◌≡◌, refl, ap, ◌∙◌, arith,
  if◌then◌else◌, length,
}
use strat_forge.Double.{Double}
use strat_forge.Broker.Trade.{Trade}
use strat_forge.Broker.State.{Broker}
use strat_forge.Analyzers.Trades.{
  Analysis, Streak, Seen, add_trade, add_trades, lengthen, is_won, analyze, finalize, no_analysis,
  none_seen,
}

-- How many hits come first.
abbrev pub leading : List Bool → ℕ
leading [] = 0
leading (hit ∷ hits) = let later = leading hits in if hit then suc later else 0

-- The longest run of hits without a miss between, wherever it starts.
abbrev pub longest_run : List Bool → ℕ
longest_run [] = 0
longest_run (hit ∷ hits) = max (leading (hit ∷ hits)) (longest_run hits)

abbrev lengthen_all : List Bool → Streak → Streak
lengthen_all [] s = s
lengthen_all (hit ∷ hits) s = lengthen_all hits (lengthen hit s)

leading_bound : (hits : List Bool) → leading hits ≤ longest_run hits
leading_bound [] = omega arith
leading_bound (hit ∷ hits) = ground arith

lengthen_all-longest :
    (hits : List Bool) (s : Streak)
    → s.current ≤ s.longest
    → (lengthen_all hits s).longest
      ≡ max s.longest (max (s.current + leading hits) (longest_run hits))
unfolding lengthen
lengthen_all-longest [] s h = ground (arith, h)
lengthen_all-longest (true ∷ hits) s h =
    let r = lengthen_all-longest hits (lengthen true s) (ground arith) in ground (arith, h, r)
lengthen_all-longest (false ∷ hits) s h =
    let r = lengthen_all-longest hits (lengthen false s) (ground arith) in
    ground (arith, h, r, leading_bound hits)

module _ {W : Type 0} ⦃d : Double W⦄ where
  -- Which of the trades won, in order.
  abbrev pub wins : List (Trade W × W) → List Bool
  wins [] = []
  wins ((t, original_size) ∷ ts) = is_won t ∷ wins ts

  abbrev pub losses : List (Trade W × W) → List Bool
  losses [] = []
  losses ((t, original_size) ∷ ts) = not (is_won t) ∷ losses ts

  add_trades-streaks :
      (ts : List (Trade W × W)) (seen : Seen) (a : Analysis W)
      → let a' = (add_trades ts (seen, a)).1 in
        (a'.streak_won ≡ lengthen_all (wins ts) a.streak_won)
        × (a'.streak_lost ≡ lengthen_all (losses ts) a.streak_lost)
  unfolding add_trades add_trade
  add_trades-streaks [] seen a = (refl, refl)
  add_trades-streaks ((t, original_size) ∷ ts) seen a =
      let s = add_trade t (seen, a) in add_trades-streaks ts s.0 s.1

  -- The longest streaks are the longest runs of closed trades, in order, that all won, and that all
  -- lost.
  pub analyze-longest_run :
      (b : Broker W)
      → ((analyze b).streak_won.longest ≡ longest_run (wins b.closed_trades))
        × ((analyze b).streak_lost.longest ≡ longest_run (losses b.closed_trades))
  unfolding analyze finalize no_analysis
  analyze-longest_run b =
      let a : Analysis W = record no_analysis {
        total_total = length b.open_trades + length b.closed_trades;
        total_open = length b.open_trades;
        total_closed = length b.closed_trades;
      } in
      let (won, lost) = add_trades-streaks b.closed_trades none_seen a in
      let w = lengthen_all-longest (wins b.closed_trades) a.streak_won (omega arith) in
      let l = lengthen_all-longest (losses b.closed_trades) a.streak_lost (omega arith) in
      (
        ap (λ s. s.longest) won ∙ (w ∙ shorter (wins b.closed_trades)),
        ap (λ s. s.longest) lost ∙ (l ∙ shorter (losses b.closed_trades)),
      )
    where
      shorter :
          (hits : List Bool) → max 0 (max (0 + leading hits) (longest_run hits)) ≡ longest_run hits
      shorter hits = ground (arith, leading_bound hits)
