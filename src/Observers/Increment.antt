-- ===== src/Observers/Increment.antt =====
-- The records of include/stratforge/observers/increment_types.hpp, with the bar of
-- include/stratforge/bar.hpp and the candidate of corrective/corrective_contracts.hpp.
use strat_forge.Common.{ℕ, Bool, Option, List}
use strat_forge.Broker.Currency.{DateTime}
use strat_forge.Broker.Trade.{Trade, TradeStatus}
use strat_forge.Corrective.Sizing.{SizingPolicy, GateVerdict}
use strat_forge.Corrective.Shadow.{OutcomeRecord}

pub data TerminationReason : Type 0 where
  normal connector_lost risk_breach external_stop fatal_error : TerminationReason

pub record BarSnapshot (W : Type 0) : Type 0 where
  pub timestamp : DateTime
  pub open_price : W
  pub high : W
  pub low : W
  pub close : W
  pub volume : W

pub record TradeRecord (W : Type 0) : Type 0 where
  pub trade_id : ℕ
  pub data_index : ℕ
  pub size : W
  pub entry_price : W
  pub exit_price : W
  pub commission : W
  pub pnl : W
  pub pnl_net : W
  pub entry_bar : ℕ
  pub exit_bar : ℕ
  pub status : ℕ
  pub entry_time : DateTime
  pub exit_time : DateTime

pub record EquityPoint (W : Type 0) : Type 0 where
  pub timestamp : DateTime
  pub portfolio_value : W
  pub cash : W
  pub drawdown_pct : W

pub record MetricsSnapshot (W : Type 0) : Type 0 where
  pub realized_pnl : W
  pub unrealized_pnl : W
  pub total_return_pct : W
  pub current_dd_pct : W
  pub max_dd_pct : W
  pub trade_count : ℕ
  pub winning_count : ℕ
  pub losing_count : ℕ
  pub win_rate_pct : W

pub data CandidateSide : Type 0 where
  long short : CandidateSide

pub record CandidateSnapshot (W : Type 0) : Type 0 where
  pub schema_version : ℕ
  pub candidate_id : ℕ
  pub as_of_timestamp_ns : ℕ
  pub knowledge_cutoff_timestamp_ns : ℕ
  pub symbol_id : ℕ
  pub side : CandidateSide
  pub proposed_size : W
  pub final_size : W
  pub feature_vector : List W
  pub feature_schema_hash : ℕ
  pub gate_verdict : GateVerdict
  pub calibrated_probability : W
  pub sizing_policy : SizingPolicy

pub record IncrementSnapshot (W : Type 0) : Type 0 where
  pub seq : ℕ
  pub new_bars : List (BarSnapshot W)
  pub new_trades : List (TradeRecord W)
  pub new_equity_points : List (EquityPoint W)
  pub current_metrics : MetricsSnapshot W
  pub processed_bars : ℕ
  pub total_bars : Option ℕ
  pub is_final : Bool
  pub termination : Option TerminationReason
  pub dropped_since_last_flush : ℕ
  pub new_candidates : List (CandidateSnapshot W)
  pub new_outcomes : List (OutcomeRecord W)

-- The underlying value of the enumerator.
abbrev pub status_number : TradeStatus → ℕ
status_number TradeStatus.opened = 0
status_number TradeStatus.closed = 1

abbrev pub project_trade : {W : Type 0} → Trade W → TradeRecord W
project_trade t = record {
  trade_id = t.id;
  data_index = t.data_index;
  size = t.size;
  entry_price = t.entry_price;
  exit_price = t.exit_price;
  commission = t.commission;
  pnl = t.pnl;
  pnl_net = t.pnlcomm;
  entry_bar = t.entry_bar;
  exit_bar = t.exit_bar;
  status = status_number t.status;
  entry_time = t.entry_time;
  exit_time = t.exit_time;
}
