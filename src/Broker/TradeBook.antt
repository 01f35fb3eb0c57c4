-- ===== src/Broker/TradeBook.antt =====
-- `BackBroker::update_trades` of include/stratforge/broker/broker.hpp: how a fill opens, adds to,
-- reduces, closes or reverses the open trade of a feed.
pub mod Ledger
pub mod Adds
use strat_forge.Common.{
  ℕ, suc, Bool, true, false, ◌&&◌, Option, none, some, List, [], ◌∷◌, ◌++◌, ◌==◌, if◌then◌else◌,
}
use strat_forge.Common.Int.{pos}
use strat_forge.Double.{Double, ◌⊕◌, ◌⊖◌, ◌⊗◌, ◌⊘◌, nought, abs}
use strat_forge.Broker.Currency.{DateTime}
use strat_forge.Broker.Position.{is_tiny, same_side}
use strat_forge.Broker.Trade.{Trade, TradeStatus, update, grows, is_open, is_closed}
use strat_forge.Broker.State.{Broker, Event}

-- What `update_trades` is called with, for one fill.
pub record FillInfo (W : Type 0) : Type 0 where
  pub data_index : ℕ
  pub old_size : W
  pub fill_size : W
  pub fill_price : W
  pub comm : W
  pub bar_index : ℕ
  pub bar_dt : DateTime
  pub candidate_id : ℕ

module _ {W : Type 0} ⦃d : Double W⦄ where
  -- `Trade trade;` with its id, its feed and its candidate.
  abbrev pub blank : ℕ → ℕ → ℕ → Trade W
  blank id data_index candidate = record {
    id = id;
    data_index = data_index;
    status = TradeStatus.opened;
    size = nought;
    entry_price = nought;
    price = nought;
    exit_price = nought;
    value = nought;
    commission = nought;
    pnl = nought;
    pnlcomm = nought;
    justopened = false;
    isopen = false;
    isclosed = false;
    islong = false;
    entry_bar = 0;
    exit_bar = 0;
    barlen = 0;
    entry_time = pos 0;
    exit_time = pos 0;
    candidate_id = candidate;
  }

  abbrev pub apply : FillInfo W → W → W → Trade W → Trade W
  apply f size comm t = update t size f.fill_price comm f.bar_index f.bar_dt

  -- A new trade at the end of `open_trades_`.
  unfoldable pub open_trade : FillInfo W → W → W → Broker W → Broker W
  open_trade f size comm b = record b {
    next_trade_id = suc b.next_trade_id;
    open_trades =
        b.open_trades
        ++ ((apply f size comm (blank b.next_trade_id f.data_index f.candidate_id), size) ∷ []);
  }

  abbrev pub is_target : ℕ → Trade W → Bool
  is_target i t = (t.data_index == i) && is_open t

  -- The first open trade of the feed, with the trades before and after it.
  unfoldable pub pick :
      ℕ → List (Trade W × W) → Option (List (Trade W × W) × (Trade W × W) × List (Trade W × W))
  pick i [] = none
  pick i ((t, orig) ∷ ts) = if is_target i t then some ([], (t, orig), ts) else elim (pick i ts) [
    | none ↦ none
    | some (before, hit, after) ↦ some ((t, orig) ∷ before, hit, after)
  ]

  unfoldable pub add_to_open : FillInfo W → Broker W → Broker W
  unfolding pick
  add_to_open f b = elim (pick f.data_index b.open_trades) [
    | none ↦ b
    | some (before, (t, orig), after) ↦ record b {
      open_trades = before ++ ((apply f f.fill_size f.comm t, orig ⊕ f.fill_size) ∷ after);
    }
  ]

  -- The trade leaves `open_trades_` and is reported.
  unfoldable pub book_closed : Trade W → W → List (Trade W × W) → Broker W → Broker W
  book_closed t orig still_open b = record b {
    open_trades = still_open;
    closed_trades = b.closed_trades ++ ((t, orig) ∷ []);
    events = b.events ++ (Event.trade_event t orig ∷ []);
  }

  -- A fill larger than the trade: one part closes it and the rest opens the next.
  unfoldable pub reverse_trade : FillInfo W → Trade W → W → List (Trade W × W) → Broker W → Broker W
  unfolding book_closed open_trade abs
  reverse_trade f t orig others b =
      let close_comm = (abs t.size ⊘ abs f.fill_size) ⊗ f.comm in
      let closing = apply f (d.neg t.size) close_comm t in
      open_trade f (f.fill_size ⊕ t.size) (f.comm ⊖ close_comm) (book_closed closing orig others b)

  unfoldable pub reduce_trade :
      FillInfo W → Trade W → W → List (Trade W × W) → List (Trade W × W) → Broker W → Broker W
  unfolding book_closed
  reduce_trade f t orig before after b =
      let t' = apply f f.fill_size f.comm t in
      if is_closed t'
      then book_closed t' orig (before ++ after) b
      else record b { open_trades = before ++ ((t', orig) ∷ after) }

  unfoldable pub reduce_open : FillInfo W → Broker W → Broker W
  unfolding pick reverse_trade reduce_trade grows
  reduce_open f b = elim (pick f.data_index b.open_trades) [
    | none ↦ b
    | some (before, (t, orig), after) ↦
        if grows f.fill_size t.size
        then reverse_trade f t orig (before ++ after) b
        else reduce_trade f t orig before after b
  ]

  unfoldable pub update_trades : FillInfo W → Broker W → Broker W
  unfolding open_trade add_to_open reduce_open is_tiny
  update_trades f b =
      if is_tiny f.old_size
      then open_trade f f.fill_size f.comm b
      else if same_side f.old_size f.fill_size
      then add_to_open f b
      else reduce_open f b
