-- ===== src/Broker/Trade.antt =====
-- include/stratforge/broker/trade.hpp: a round trip from the opening fill to the closing one.
pub mod Update
pub mod Granular
use strat_forge.Common.{ℕ, ◌-◌, Bool, true, false, ◌&&◌, not, if◌then◌else◌, leb}
use strat_forge.Double.{Double, ◌⊕◌, ◌⊖◌, ◌⊗◌, ◌⊘◌, nought, abs}
use strat_forge.Broker.Currency.{DateTime}
use strat_forge.Broker.Position.{is_tiny}

pub data TradeStatus : Type 0 where
  opened closed : TradeStatus

pub record Trade (W : Type 0) : Type 0 where
  pub id : ℕ
  pub data_index : ℕ
  pub status : TradeStatus
  pub size : W
  pub entry_price : W
  pub price : W
  pub exit_price : W
  pub value : W
  pub commission : W
  pub pnl : W
  pub pnlcomm : W
  pub justopened : Bool
  pub isopen : Bool
  pub isclosed : Bool
  pub islong : Bool
  pub entry_bar : ℕ
  pub exit_bar : ℕ
  pub barlen : ℕ
  pub entry_time : DateTime
  pub exit_time : DateTime
  pub candidate_id : ℕ

module _ {W : Type 0} ⦃d : Double W⦄ where
  -- |x| >= 1e-10
  unfoldable pub is_sized : W → Bool
  unfolding abs
  is_sized x = d.le d.tiny (abs x)

  -- |x| > |y|
  unfoldable pub grows : W → W → Bool
  unfolding abs
  grows x y = d.lt (abs y) (abs x)

  -- The average price after a fill, when the trade was open before.
  unfoldable pub blended_price : Trade W → W → W → W
  unfolding grows
  blended_price t fill fill_price =
      if grows (t.size ⊕ fill) t.size
      then ((t.size ⊗ t.price) ⊕ (fill ⊗ fill_price)) ⊘ (t.size ⊕ fill)
      else t.price

  unfoldable pub realized_pnl : Trade W → W → W → W
  unfolding grows is_sized
  realized_pnl t fill fill_price =
      if grows (t.size ⊕ fill) t.size
      then t.pnl
      else if is_sized t.size
      then t.pnl ⊕ (d.neg fill ⊗ (fill_price ⊖ t.price))
      else t.pnl

  unfoldable pub entry_price_after : Trade W → W → W → W
  unfolding is_tiny blended_price grows
  entry_price_after t fill fill_price =
      if is_tiny t.size
      then fill_price
      else if grows (t.size ⊕ fill) t.size
      then blended_price t fill fill_price
      else t.entry_price

  unfoldable pub closes : Trade W → W → Bool
  unfolding is_sized
  closes t fill = is_sized t.size && not (is_sized (t.size ⊕ fill))

  -- The trade after a fill, before the closing assignments.
  unfoldable pub filled : Trade W → W → W → W → ℕ → DateTime → Trade W
  unfolding is_tiny is_sized blended_price realized_pnl entry_price_after closes
  filled t fill fill_price comm bar_index bar_dt =
      let just = is_tiny t.size in
      let size = t.size ⊕ fill in
      let entry_bar = if just then bar_index else t.entry_bar in
      let price = if just then fill_price else blended_price t fill fill_price in
      record t {
        size = size;
        commission = t.commission ⊕ comm;
        justopened = just;
        entry_bar = entry_bar;
        entry_time = if just then bar_dt else t.entry_time;
        islong = if just then d.lt nought size else t.islong;
        isopen = is_sized size;
        isclosed = closes t fill;
        barlen = if leb entry_bar bar_index then bar_index - entry_bar else 0;
        price = price;
        entry_price = entry_price_after t fill fill_price;
        pnl = realized_pnl t fill fill_price;
        pnlcomm = realized_pnl t fill fill_price ⊖ (t.commission ⊕ comm);
        value = size ⊗ price;
        status = TradeStatus.opened;
      }

  unfoldable pub update : Trade W → W → W → W → ℕ → DateTime → Trade W
  unfolding filled is_tiny closes
  update t fill fill_price comm bar_index bar_dt =
      let t' = filled t fill fill_price comm bar_index bar_dt in
      if is_tiny fill
      then t
      else if closes t fill
      then record t' {
        exit_price = fill_price;
        size = nought;
        value = nought;
        status = TradeStatus.closed;
        exit_bar = bar_index;
        exit_time = bar_dt;
        isopen = false;
      }
      else t'

  abbrev pub is_open : Trade W → Bool
  is_open t = elim t.status [ TradeStatus.opened ↦ true | TradeStatus.closed ↦ false ]

  abbrev pub is_closed : Trade W → Bool
  is_closed t = elim t.status [ TradeStatus.opened ↦ false | TradeStatus.closed ↦ true ]
