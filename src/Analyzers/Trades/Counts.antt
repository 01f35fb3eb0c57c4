-- ===== src/Analyzers/Trades/Counts.antt =====
-- The counts of the analysis, each against the closed trades that it counts.
use strat_forge.Common.{
  ℕ, ◌+◌, Bool, ◌&&◌, not, List, [], ◌∷◌, ◌≡◌, refl, ◌∙◌, arith, if◌then◌else◌, length,
}
use strat_forge.Double.{Double, ◌⊕◌}
use strat_forge.Broker.Trade.{Trade}
use strat_forge.Broker.State.{Broker}
use strat_forge.Analyzers.Trades.{
  Analysis, Directional, PnlSummary, Seen, averaged, add_trade, add_trades, add_side, is_won,
  analyze, finalize, finalize_side, no_analysis, none_seen,
}

module _ {W : Type 0} where
  -- How many of the closed trades meet a test.
  abbrev pub tally : (Trade W → Bool) → List (Trade W × W) → ℕ
  tally test [] = 0
  tally test ((t, original_size) ∷ ts) = (if test t then 1 else 0) + tally test ts

module _ {W : Type 0} ⦃d : Double W⦄ where
  -- The net results, summed in the order of the trades.
  abbrev pub sum_net : W → List (Trade W × W) → W
  sum_net sum [] = sum
  sum_net sum ((t, original_size) ∷ ts) = sum_net (sum ⊕ t.pnlcomm) ts

  -- The counts of a side, above those before.
  pub record SideCounts (of : Trade W → Bool) (ts : List (Trade W × W)) (s s' : Directional W)
      : Type 0 where
    pub total : s'.total ≡ s.total + tally of ts
    pub won : s'.won ≡ s.won + tally (λ t. of t && is_won t) ts
    pub lost : s'.lost ≡ s.lost + tally (λ t. of t && not (is_won t)) ts

  pub record AllCounts (ts : List (Trade W × W)) (a a' : Analysis W) : Type 0 where
    pub won : a'.won.total ≡ a.won.total + tally is_won ts
    pub lost : a'.lost.total ≡ a.lost.total + tally (λ t. not (is_won t)) ts
    pub net : a'.net.total ≡ sum_net a.net.total ts
    pub long_side : SideCounts (λ t. t.islong) ts a.long_side a'.long_side
    pub short_side : SideCounts (λ t. not t.islong) ts a.short_side a'.short_side

  add_trades-AllCounts :
      (ts : List (Trade W × W)) (seen : Seen) (a : Analysis W)
      → AllCounts ts a (add_trades ts (seen, a)).1
  unfolding add_trades add_trade add_side
  add_trades-AllCounts [] seen a = record {
    won = omega arith;
    lost = omega arith;
    net = refl;
    long_side = record { total = omega arith; won = omega arith; lost = omega arith };
    short_side = record { total = omega arith; won = omega arith; lost = omega arith };
  }
  add_trades-AllCounts ((t, original_size) ∷ ts) seen a =
      let s = add_trade t (seen, a) in
      let r = add_trades-AllCounts ts s.0 s.1 in
      record {
        won = ground (arith, r.won);
        lost = ground (arith, r.lost);
        net = r.net;
        long_side = record {
          total = ground (arith, r.long_side.total);
          won = ground (arith, r.long_side.won);
          lost = ground (arith, r.long_side.lost);
        };
        short_side = record {
          total = ground (arith, r.short_side.total);
          won = ground (arith, r.short_side.won);
          lost = ground (arith, r.short_side.lost);
        };
      }

  add_trades_totals :
      (ts : List (Trade W × W)) (seen : Seen) (a : Analysis W)
      → let a' = (add_trades ts (seen, a)).1 in
        (a'.total_closed ≡ a.total_closed)
        × (a'.total_open ≡ a.total_open)
        × (a'.total_total ≡ a.total_total)
  unfolding add_trades add_trade
  add_trades_totals [] seen a = (refl, refl, refl)
  add_trades_totals ((t, original_size) ∷ ts) seen a =
      let s = add_trade t (seen, a) in add_trades_totals ts s.0 s.1

  tally-not :
      (test : Trade W → Bool) (ts : List (Trade W × W))
      → tally test ts + tally (λ t. not (test t)) ts ≡ length ts
  tally-not test [] = omega arith
  tally-not test ((t, original_size) ∷ ts) = ground (arith, tally-not test ts)

  averaged_total : (n : ℕ) (p : PnlSummary W) → (averaged n p).total ≡ p.total
  averaged_total n p = ground arith

  -- The analysis of a broker counts, of the closed trades: those won and those lost, and on each side
  -- all, those won and those lost. The net result is the sum of theirs, in order, and each closed trade
  -- is counted as won or as lost.
  pub analyze-AllCounts :
      (b : Broker W)
      → AllCounts b.closed_trades no_analysis (analyze b)
        × ((analyze b).won.total + (analyze b).lost.total ≡ (analyze b).total_closed)
        × ((analyze b).total_open + (analyze b).total_closed ≡ (analyze b).total_total)
  unfolding analyze finalize finalize_side no_analysis
  analyze-AllCounts b =
      let a : Analysis W = record no_analysis {
        total_total = length b.open_trades + length b.closed_trades;
        total_open = length b.open_trades;
        total_closed = length b.closed_trades;
      } in
      let r = add_trades-AllCounts b.closed_trades none_seen a in
      let s = add_trades b.closed_trades (none_seen, a) in
      let kept = add_trades_totals b.closed_trades none_seen a in
      (
        record {
          won = r.won;
          lost = r.lost;
          net = averaged_total s.1.total_closed s.1.net ∙ r.net;
          long_side = record {
            total = r.long_side.total;
            won = r.long_side.won;
            lost = r.long_side.lost;
          };
          short_side = record {
            total = r.short_side.total;
            won = r.short_side.won;
            lost = r.short_side.lost;
          };
        },
        omega (arith, r.won, r.lost, kept.0, tally-not is_won b.closed_trades),
        omega (arith, kept.0, kept.1, kept.2),
      )
