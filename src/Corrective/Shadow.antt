-- ===== src/Corrective/Shadow.antt =====
-- The shadow ledger, include/stratforge/corrective/shadow_ledger.hpp, which follows the candidates
-- that were rejected. The length of a tick of the clock is the platform's, so `nanoseconds` stands
-- for std::chrono's conversion. A null feed is a feed that the list does not have.
pub mod Once
pub mod Horizon
use strat_forge.Common.{
  ℕ, suc, ◌-◌, ◌^◌, ◌%◌, Bool, ◌&&◌, List, [], ◌∷◌, ◌++◌, map, none, some, if◌then◌else◌, ltb, leb,
  get_elem?,
}
use strat_forge.Common.Int.{ℤ, pos, negsuc}
use strat_forge.Double.{Double, ◌⊖◌, ◌⊗◌, nought}
use strat_forge.Broker.Currency.{DateTime}
use strat_forge.Broker.State.{Feed}

pub data OutcomeType : Type 0 where
  actual : OutcomeType
  shadow : OutcomeType
  censored : OutcomeType

pub data CompletionStatus : Type 0 where
  complete : CompletionStatus
  censored : CompletionStatus

pub record OutcomeRecord (W : Type 0) : Type 0 where
  pub schema_version : ℕ
  pub candidate_id : ℕ
  pub outcome_type : OutcomeType
  pub entry_timestamp_ns : ℕ
  pub exit_timestamp_ns : ℕ
  pub holding_interval_bars : ℕ
  pub gross_pnl : W
  pub commission : W
  pub slippage : W
  pub net_pnl : W
  pub completion_status : CompletionStatus
  pub label_policy_version : ℕ
  pub profit_label : ℤ

pub record ShadowEntry (W : Type 0) : Type 0 where
  pub candidate_id : ℕ
  pub data_index : ℕ
  pub entry_price : W
  pub size : W
  pub entry_bar : ℕ
  pub entry_timestamp_ns : ℕ
  pub commission_per_side : W
  pub horizon_bars : ℕ
  pub bars_held : ℕ

-- `static_cast<std::uint64_t>`.
abbrev pub to_uint64 : ℤ → ℕ
to_uint64 (pos n) = n % 2 ^ 64
to_uint64 (negsuc n) = 2 ^ 64 - suc (n % 2 ^ 64)

module _ {W : Type 0} where
  abbrev pub exit_price_at : ShadowEntry W → List (Feed W) → W
  exit_price_at s feeds = elim (get_elem? feeds s.data_index) [
    | none ↦ s.entry_price
    | some f ↦ f.close
  ]

  abbrev pub add_shadow : ShadowEntry W → List (ShadowEntry W) → List (ShadowEntry W)
  add_shadow entry open_shadows = open_shadows ++ (entry ∷ [])

  abbrev pub is_due : ShadowEntry W → Bool
  is_due s = ltb 0 s.horizon_bars && leb s.horizon_bars s.bars_held

module _ {W : Type 0} ⦃d : Double W⦄ (nanoseconds : DateTime → ℤ) where
  abbrev pub bar_timestamp_ns : ShadowEntry W → List (Feed W) → ℕ
  bar_timestamp_ns s feeds = elim (get_elem? feeds s.data_index) [
    | none ↦ 0
    | some f ↦ to_uint64 (nanoseconds f.datetime)
  ]

  -- What `close_shadow_` and `censor_shadow_` have in common.
  abbrev pub outcome :
      OutcomeType → CompletionStatus → (W → ℤ) → ShadowEntry W → List (Feed W) → OutcomeRecord W
  outcome type status label s feeds =
      let gross = (exit_price_at s feeds ⊖ s.entry_price) ⊗ s.size in
      let comm = s.commission_per_side ⊗ d.lit 2 in
      record {
        schema_version = 1;
        candidate_id = s.candidate_id;
        outcome_type = type;
        entry_timestamp_ns = s.entry_timestamp_ns;
        exit_timestamp_ns = bar_timestamp_ns s feeds;
        holding_interval_bars = s.bars_held % 2 ^ 32;
        gross_pnl = gross;
        commission = comm;
        slippage = nought;
        net_pnl = gross ⊖ comm;
        completion_status = status;
        label_policy_version = 1;
        profit_label = label (gross ⊖ comm);
      }

  abbrev pub close_shadow : ShadowEntry W → List (Feed W) → OutcomeRecord W
  close_shadow =
      outcome OutcomeType.shadow CompletionStatus.complete
        (λ net. if d.lt nought net then pos 1 else pos 0)

  abbrev pub censor_shadow : ShadowEntry W → List (Feed W) → OutcomeRecord W
  censor_shadow = outcome OutcomeType.censored CompletionStatus.censored (λ net. negsuc 0)

  -- The entries that stay open, and the records.
  unfoldable pub tick :
      List (Feed W) → List (ShadowEntry W) → List (ShadowEntry W) × List (OutcomeRecord W)
  tick feeds [] = ([], [])
  tick feeds (s ∷ open_shadows) =
      let held = record s { bars_held = suc s.bars_held } in
      let (still_open, results) = tick feeds open_shadows in
      if is_due held
      then (still_open, close_shadow held feeds ∷ results)
      else (held ∷ still_open, results)

  abbrev pub flush_censored :
      List (Feed W) → List (ShadowEntry W) → List (ShadowEntry W) × List (OutcomeRecord W)
  flush_censored feeds open_shadows = ([], map (λ s. censor_shadow s feeds) open_shadows)

-- A call of the ledger, and what it adds to the records that the caller has.
pub data Call (W : Type 0) : Type 0 where
  adds : ShadowEntry W → Call W
  ticks : List (Feed W) → Call W
  flushes : List (Feed W) → Call W

module _ {W : Type 0} ⦃d : Double W⦄ (nanoseconds : DateTime → ℤ) where
  unfoldable pub calls :
      List (Call W) → List (ShadowEntry W) → List (ShadowEntry W) × List (OutcomeRecord W)
  unfolding tick
  calls [] open_shadows = (open_shadows, [])
  calls (Call.adds e ∷ cs) open_shadows = calls cs (add_shadow e open_shadows)
  calls (Call.ticks feeds ∷ cs) open_shadows =
      let (left, now) = tick nanoseconds feeds open_shadows in
      let (last, later) = calls cs left in (last, now ++ later)
  calls (Call.flushes feeds ∷ cs) open_shadows =
      let (left, now) = flush_censored nanoseconds feeds open_shadows in
      let (last, later) = calls cs left in (last, now ++ later)
