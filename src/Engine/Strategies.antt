-- ===== src/Engine/Strategies.antt =====
-- The strategies in `Cerebro::run` of include/stratforge/engine/cerebro.hpp. What a strategy computes is
-- a parameter: it sees the feeds, calls the broker and changes its own state.
pub mod Requests
use Prim.Native.String.{String}
use strat_forge.Common.{
  ℕ, zero, suc, ◌+◌, ◌-◌, Bool, true, false, ◌&&◌, not, Option, none, some, List, [], ◌∷◌, ◌++◌,
  map, if◌then◌else◌, ltb, leb, ◌==◌, length, get_elem?,
}
use strat_forge.Common.Int.{ℤ, pos, ◌+ℤ◌, ◌*ℤ◌, leb_ℤ, eqb_ℤ}
use strat_forge.Common.Throws.{Throws, returns, throws, ◌>>=◌}
use strat_forge.Double.{Double, nought}
use strat_forge.Broker.Currency.{DateTime}
use strat_forge.Broker.State.{Broker, Feed}
use strat_forge.Broker.Settings.{set_bar_index}
use strat_forge.Broker.Process.{process_orders}
use strat_forge.Broker.History.{Act, act}
use strat_forge.Data.Resampler.{TimeFrame, Bar}
use strat_forge.Data.Interval.{
  TimeFrameCompression, CivilCalendar, duration_of, period_end, finer_than, tf_number,
}
use strat_forge.Broker.Order.{OrderSide}
use strat_forge.Broker.Submit.{OrderParams}
use strat_forge.Engine.Clock.{Clocked}

-- The virtual members of a strategy that `run` calls.
pub data Callback : Type 0 where
  init start prenext nextstart next stop : Callback

-- The calls of the broker that a strategy makes.
pub data BrokerCall (W : Type 0) : Type 0 where
  submits : OrderSide → W → OrderParams W → BrokerCall W
  brackets : OrderSide → W → W → W → ℕ → BrokerCall W
  cancels closes : ℕ → BrokerCall W

abbrev pub as_act : {W : Type 0} → BrokerCall W → Act W
as_act (BrokerCall.submits side size params) = Act.submits side size params
as_act (BrokerCall.brackets side size limit_price stop_price i) =
    Act.brackets side size limit_price stop_price i
as_act (BrokerCall.cancels id) = Act.cancels id
as_act (BrokerCall.closes i) = Act.closes i

-- What a callback does: it ends with a new state of the strategy, or calls the broker and goes on by
-- what it then sees.
pub data Plan (S W : Type 0) : Type 0 where
  done : S → Plan S W
  calls : BrokerCall W → (Broker W → Plan S W) → Plan S W

pub record Strategies (S W : Type 0) : Type 0 where
  pub minimum_period : S → ℕ → ℕ
  pub callback : Callback → List (Clocked W) → Broker W → S → Plan S W

-- A strategy with its entry of `strat_entered_next`.
pub record Seat (S : Type 0) : Type 0 where
  pub strat : S
  pub entered_next : Bool

module _ {S W : Type 0} ⦃d : Double W⦄ (user : Strategies S W) where
  unfoldable pub carry_out : Plan S W → Broker W → S × Broker W
  carry_out (Plan.done s) b = (s, b)
  carry_out (Plan.calls a k) b = let b' = act (as_act a) b in carry_out (k b') b'

  unfoldable pub call : Callback → List (Clocked W) → S → Broker W → S × Broker W
  unfolding carry_out
  call cb fs s b = carry_out (user.callback cb fs b s) b

  -- Whether every feed from the k-th on has given what the strategy asks for.
  unfoldable pub all_ready : S → ℕ → List (Clocked W) → Bool
  all_ready s k [] = true
  all_ready s k (f ∷ fs) =
      not (ltb f.bars_delivered (user.minimum_period s k)) && all_ready s (suc k) fs

  abbrev pub phase : Bool → Bool → Callback
  phase entered ready =
      if entered then Callback.next else if ready then Callback.nextstart else Callback.prenext

  -- The lifecycle call of every strategy, and the seats after it.
  unfoldable pub call_all : List (Clocked W) → List (Seat S) → Broker W → List (Seat S) × Broker W
  unfolding call all_ready
  call_all fs [] b = ([], b)
  call_all fs (seat ∷ seats) b =
      let ready = all_ready seat.strat 0 fs in
      let (s, b') = call (phase seat.entered_next ready) fs seat.strat b in
      let (seats', b'') = call_all fs seats b' in
      (record { strat = s; entered_next = if seat.entered_next then true else ready } ∷ seats', b'')
