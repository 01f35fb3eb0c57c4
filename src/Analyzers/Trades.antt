-- ===== src/Analyzers/Trades.antt =====
-- include/stratforge/analyzers/trade_analyzer.hpp: what the closed trades won and lost, on each side,
-- how long they lasted, and the streaks of wins and of losses.
pub mod Counts
pub mod Streaks
use strat_forge.Common.{
  ℕ, zero, suc, ◌+◌, max, Bool, true, false, ◌&&◌, ◌||◌, not, List, [], ◌∷◌, if◌then◌else◌, ltb,
  ◌==◌, length,
}
use strat_forge.Double.{Double, ◌⊕◌, ◌⊘◌, nought, fmin, fmax}
use strat_forge.Broker.Trade.{Trade}
use strat_forge.Broker.State.{Broker}

pub record Streak : Type 0 where
  pub current : ℕ
  pub longest : ℕ

pub record PnlSummary (W : Type 0) : Type 0 where
  pub total : W
  pub average : W
  pub max : W

pub record WonLost (W : Type 0) : Type 0 where
  pub total : ℕ
  pub pnl : PnlSummary W

-- `pnl_total` and `pnl_average` are the members of that name in `pnl`.
pub record Directional (W : Type 0) : Type 0 where
  pub total : ℕ
  pub won : ℕ
  pub lost : ℕ
  pub pnl_total : W
  pub pnl_average : W
  pub pnl_won : PnlSummary W
  pub pnl_lost : PnlSummary W

pub record LengthStats (W : Type 0) : Type 0 where
  pub total : ℕ
  pub average : W
  pub max : ℕ
  pub min : ℕ

pub record DirectionalLength (W : Type 0) : Type 0 where
  pub total_stats : LengthStats W
  pub won : LengthStats W
  pub lost : LengthStats W

pub record Analysis (W : Type 0) : Type 0 where
  pub total_total : ℕ
  pub total_open : ℕ
  pub total_closed : ℕ
  pub streak_won : Streak
  pub streak_lost : Streak
  pub gross : PnlSummary W
  pub net : PnlSummary W
  pub won : WonLost W
  pub lost : WonLost W
  pub long_side : Directional W
  pub short_side : Directional W
  pub len : DirectionalLength W
  pub len_long : DirectionalLength W
  pub len_short : DirectionalLength W

-- The flags of `analyze`, without those that a later one stands for.
pub record Seen : Type 0 where
  pub won : Bool
  pub lost : Bool
  pub long : Bool
  pub short : Bool
  pub long_won : Bool
  pub long_lost : Bool
  pub short_won : Bool
  pub short_lost : Bool

abbrev pub none_seen : Seen
none_seen = record {
  won = false;
  lost = false;
  long = false;
  short = false;
  long_won = false;
  long_lost = false;
  short_won = false;
  short_lost = false;
}

unfoldable pub lengthen : Bool → Streak → Streak
lengthen hit s =
    let current = if hit then suc s.current else 0 in
    record { current = current; longest = max s.longest current }

module _ {W : Type 0} ⦃d : Double W⦄ where
  abbrev pub no_pnl : PnlSummary W
  no_pnl = record { total = nought; average = nought; max = nought }

  abbrev pub no_length : LengthStats W
  no_length = record { total = 0; average = nought; max = 0; min = 0 }

  abbrev pub no_lengths : DirectionalLength W
  no_lengths = record { total_stats = no_length; won = no_length; lost = no_length }

  abbrev pub no_side : Directional W
  no_side = record {
    total = 0;
    won = 0;
    lost = 0;
    pnl_total = nought;
    pnl_average = nought;
    pnl_won = no_pnl;
    pnl_lost = no_pnl;
  }

  unfoldable pub no_analysis : Analysis W
  no_analysis = record {
    total_total = 0;
    total_open = 0;
    total_closed = 0;
    streak_won = record { current = 0; longest = 0 };
    streak_lost = record { current = 0; longest = 0 };
    gross = no_pnl;
    net = no_pnl;
    won = record { total = 0; pnl = no_pnl };
    lost = record { total = 0; pnl = no_pnl };
    long_side = no_side;
    short_side = no_side;
    len = no_lengths;
    len_long = no_lengths;
    len_short = no_lengths;
  }

  unfoldable pub update_length_summary : ℕ → LengthStats W → LengthStats W
  update_length_summary barlen stats = record stats {
    total = stats.total + barlen;
    max = max stats.max barlen;
    min = if (stats.min == 0) || ltb barlen stats.min then barlen else stats.min;
  }

  -- The lengths of one side, or of all trades.
  unfoldable pub update_lengths : Bool → ℕ → DirectionalLength W → DirectionalLength W
  unfolding update_length_summary
  update_lengths won barlen l = record {
    total_stats = update_length_summary barlen l.total_stats;
    won = if won then update_length_summary barlen l.won else l.won;
    lost = if won then l.lost else update_length_summary barlen l.lost;
  }

  -- A result in a summary whose extreme is the largest, or the smallest.
  abbrev pub add_won : Bool → W → PnlSummary W → PnlSummary W
  add_won have pnl p = record p {
    total = p.total ⊕ pnl;
    max = if have then fmax p.max pnl else pnl;
  }

  abbrev pub add_lost : Bool → W → PnlSummary W → PnlSummary W
  add_lost have pnl p = record p {
    total = p.total ⊕ pnl;
    max = if have then fmin p.max pnl else pnl;
  }

  unfoldable pub add_side : Bool → Bool → W → Directional W → Directional W
  unfolding fmax fmin
  add_side won have pnl s = record s {
    total = suc s.total;
    won = if won then suc s.won else s.won;
    lost = if won then s.lost else suc s.lost;
    pnl_total = s.pnl_total ⊕ pnl;
    pnl_won = if won then add_won have pnl s.pnl_won else s.pnl_won;
    pnl_lost = if won then s.pnl_lost else add_lost have pnl s.pnl_lost;
  }

  -- `closed_pnl`
  abbrev pub is_won : Trade W → Bool
  is_won t = d.le nought t.pnlcomm

  -- The loop over the closed trades, for one of them.
  unfoldable pub add_trade : Trade W → Seen × Analysis W → Seen × Analysis W
  unfolding update_lengths lengthen add_side fmax fmin
  add_trade t (seen, a) =
      let won = is_won t in
      let have_long = if won then seen.long_won else seen.long_lost in
      let have_short = if won then seen.short_won else seen.short_lost in
      (
        record {
          won = seen.won || won;
          lost = seen.lost || not won;
          long = seen.long || t.islong;
          short = seen.short || not t.islong;
          long_won = seen.long_won || (t.islong && won);
          long_lost = seen.long_lost || (t.islong && not won);
          short_won = seen.short_won || (not t.islong && won);
          short_lost = seen.short_lost || (not t.islong && not won);
        },
        record a {
          streak_won = lengthen won a.streak_won;
          streak_lost = lengthen (not won) a.streak_lost;
          gross = record a.gross { total = a.gross.total ⊕ t.pnl };
          net = record a.net { total = a.net.total ⊕ t.pnlcomm };
          won =
              if won
              then record { total = suc a.won.total; pnl = add_won seen.won t.pnlcomm a.won.pnl }
              else a.won;
          lost = if won then a.lost else record {
            total = suc a.lost.total;
            pnl = add_lost seen.lost t.pnlcomm a.lost.pnl;
          };
          long_side =
              if t.islong then add_side won have_long t.pnlcomm a.long_side else a.long_side;
          short_side =
              if t.islong then a.short_side else add_side won have_short t.pnlcomm a.short_side;
          len = update_lengths won t.barlen a.len;
          len_long = if t.islong then update_lengths won t.barlen a.len_long else a.len_long;
          len_short = if t.islong then a.len_short else update_lengths won t.barlen a.len_short;
        },
      )

  unfoldable pub add_trades : List (Trade W × W) → Seen × Analysis W → Seen × Analysis W
  unfolding add_trade
  add_trades [] s = s
  add_trades ((t, original_size) ∷ ts) s = add_trades ts (add_trade t s)

  -- The average of a total over a count, if there are any.
  abbrev pub averaged : ℕ → PnlSummary W → PnlSummary W
  averaged n p = if n == 0 then p else record p { average = p.total ⊘ d.lit n }

  abbrev pub averaged_length : ℕ → LengthStats W → LengthStats W
  averaged_length n l = if n == 0 then l else record l { average = d.lit l.total ⊘ d.lit n }

  abbrev pub no_max_unless : Bool → PnlSummary W → PnlSummary W
  no_max_unless have p = if have then p else record p { max = nought }

  abbrev pub no_min_unless : Bool → LengthStats W → LengthStats W
  no_min_unless have l = if have then l else record l { min = 0 }

  unfoldable pub finalize_side : Directional W → Directional W
  finalize_side s = record s {
    pnl_average = if s.total == 0 then s.pnl_average else s.pnl_total ⊘ d.lit s.total;
    pnl_won = no_max_unless (not (s.won == 0)) (averaged s.won s.pnl_won);
    pnl_lost = no_max_unless (not (s.lost == 0)) (averaged s.lost s.pnl_lost);
  }

  unfoldable pub finalize_lengths : Bool → Directional W → DirectionalLength W → DirectionalLength W
  finalize_lengths have s l = record {
    total_stats = no_min_unless have (averaged_length s.total l.total_stats);
    won = no_min_unless (not (s.won == 0)) (averaged_length s.won l.won);
    lost = no_min_unless (not (s.lost == 0)) (averaged_length s.lost l.lost);
  }

  -- What `analyze` does after the loop.
  unfoldable pub finalize : Seen × Analysis W → Analysis W
  unfolding finalize_side finalize_lengths
  finalize (seen, a) = record a {
    gross = averaged a.total_closed a.gross;
    net = averaged a.total_closed a.net;
    won = record a.won { pnl = no_max_unless seen.won (averaged a.won.total a.won.pnl) };
    lost = record a.lost { pnl = no_max_unless seen.lost (averaged a.lost.total a.lost.pnl) };
    long_side = finalize_side a.long_side;
    short_side = finalize_side a.short_side;
    len = record {
      total_stats = averaged_length a.total_closed a.len.total_stats;
      won = averaged_length a.won.total a.len.won;
      lost = averaged_length a.lost.total a.len.lost;
    };
    len_long = finalize_lengths seen.long a.long_side a.len_long;
    len_short = finalize_lengths seen.short a.short_side a.len_short;
  }

  unfoldable pub analyze : Broker W → Analysis W
  unfolding finalize add_trades no_analysis
  analyze b = finalize (
      add_trades b.closed_trades (
        none_seen,
        record no_analysis {
          total_total = length b.open_trades + length b.closed_trades;
          total_open = length b.open_trades;
          total_closed = length b.closed_trades;
        },
      ))
