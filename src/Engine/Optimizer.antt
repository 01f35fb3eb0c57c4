-- ===== src/Engine/Optimizer.antt =====
-- include/stratforge/engine/optimizer.hpp: the grid of parameters, and worker threads that take its
-- entries one by one. A schedule says which worker moves next; the mutex makes a claim one move. There
-- is at least one feed. Strategies are functions that the caller gives.
pub mod Grid
pub mod Claims
pub mod Results
pub mod Ends
use Prim.Native.String.{String}
use strat_forge.Common.{
  ℕ, zero, suc, ◌+◌, Bool, true, false, Option, none, some, List, [], ◌∷◌, ◌++◌, map, min,
  if◌then◌else◌, leb, ◌==◌, length, get_elem?, set,
}
use strat_forge.Common.Int.{ℤ, pos}
use strat_forge.Common.Throws.{Throws, returns, throws}
use strat_forge.Double.{Double, nought}
use strat_forge.Data.Line.{copies}
use strat_forge.Params.{ParamValue, ParamMap, assign, merge_params}
use strat_forge.Broker.Currency.{DateTime, Currency}
use strat_forge.Broker.Commission.{CommissionInfo}
use strat_forge.Broker.State.{Broker, init}
use strat_forge.Broker.Settings.{set_cash, set_commission}
use strat_forge.Data.Interval.{CivilCalendar}
use strat_forge.Engine.Clock.{Clocked}
use strat_forge.Engine.Strategies.{Strategies, Seat}
use strat_forge.Engine.Cerebro.{Cerebro, run}

pub record OptResult (W : Type 0) : Type 0 where
  pub params : ParamMap W
  pub final_value : W
  pub sharpe_ratio : W
  pub max_drawdown : W
  pub total_trades : ℕ

pub record ParamRange (W : Type 0) : Type 0 where
  pub name : String
  pub values : List (ParamValue W)

module _ {W : Type 0} where
  -- An entry with every value of a range.
  unfoldable pub extensions : ParamRange W → ParamMap W → List (ParamMap W)
  unfolding assign
  extensions r m = map (λ v. assign r.name v m) r.values

  unfoldable pub cross : ParamRange W → List (ParamMap W) → List (ParamMap W)
  unfolding extensions
  cross r [] = []
  cross r (m ∷ grid) = extensions r m ++ cross r grid

  unfoldable pub cross_all : List (ParamRange W) → List (ParamMap W) → List (ParamMap W)
  unfolding cross
  cross_all [] grid = grid
  cross_all (r ∷ rs) grid = cross_all rs (cross r grid)

  unfoldable pub generate_param_grid : List (ParamRange W) → List (ParamMap W)
  unfolding cross_all extensions
  generate_param_grid [] = []
  generate_param_grid (r ∷ rs) = cross_all rs (extensions r [])

-- How the work on an entry ends. An exception in a thread ends the program.
pub data Outcome (W : Type 0) : Type 0 where
  finished : OptResult W → Outcome W
  not_cloned : Outcome W
  terminates : Outcome W

-- Where a worker is: before its next claim, at work on an entry, or returned.
pub data Worker : Type 0 where
  waiting : Worker
  working : ℕ → Worker
  ended : Worker

pub record Pool (W : Type 0) : Type 0 where
  pub next_index : ℕ
  pub results : List (OptResult W)
  pub workers : List Worker
  pub terminated : Bool

pub record OptimizerConfig (W : Type 0) : Type 0 where
  pub cash : W
  pub commission : CommissionInfo W
  pub max_threads : ℕ

module _ {W : Type 0} where
  -- The end of the work on an entry.
  unfoldable pub settle_entry : ℕ → ℕ → Outcome W → Pool W → Pool W
  settle_entry t i (Outcome.finished r) p = record p {
    results = set p.results i r;
    workers = set p.workers t Worker.waiting;
  }
  settle_entry t i Outcome.not_cloned p = record p { workers = set p.workers t Worker.ended }
  settle_entry t i Outcome.terminates p = record p { terminated = true }

module _ {W : Type 0} (attempt : ParamMap W → Outcome W) (grid : List (ParamMap W)) where
  -- The claim of the next entry.
  unfoldable pub claim : ℕ → Pool W → Pool W
  claim t p =
      if leb (length grid) p.next_index
      then record p { workers = set p.workers t Worker.ended }
      else record p {
        next_index = suc p.next_index;
        workers = set p.workers t (Worker.working p.next_index);
      }

  unfoldable pub complete : ℕ → ℕ → Pool W → Pool W
  unfolding settle_entry
  complete t i p = elim (get_elem? grid i) [ none ↦ p | some m ↦ settle_entry t i (attempt m) p ]

  unfoldable pub move_from : Option Worker → ℕ → Pool W → Pool W
  unfolding claim complete
  move_from none t p = p
  move_from (some Worker.ended) t p = p
  move_from (some Worker.waiting) t p = claim t p
  move_from (some (Worker.working i)) t p = complete t i p

  -- The next move of the t-th worker.
  unfoldable pub move : ℕ → Pool W → Pool W
  unfolding move_from
  move t p = if p.terminated then p else move_from (get_elem? p.workers t) t p

  unfoldable pub moves : List ℕ → Pool W → Pool W
  unfolding move
  moves [] p = p
  moves (t ∷ ts) p = moves ts (move t p)

-- `hardware` is what `std::thread::hardware_concurrency` says.
unfoldable pub thread_count : ℕ → ℕ → ℕ
thread_count max_threads hardware =
    if max_threads == 0 then if hardware == 0 then 1 else hardware else max_threads

module _ {W : Type 0} ⦃d : Double W⦄ where
  unfoldable pub empty_result : OptResult W
  empty_result = record {
    params = [];
    final_value = nought;
    sharpe_ratio = nought;
    max_drawdown = nought;
    total_trades = 0;
  }

  -- The pool when the threads are launched.
  unfoldable pub launch : OptimizerConfig W → ℕ → List (ParamMap W) → Pool W
  unfolding empty_result thread_count copies
  launch config hardware grid = record {
    next_index = 0;
    results = copies (length grid) empty_result;
    workers = copies (min (thread_count config.max_threads hardware) (length grid)) Worker.waiting;
    terminated = false;
  }

-- The clones of the feeds, in which a feed without `clone` leaves none.
abbrev pub clone_all {ℓ κ} : {F : Type ℓ} {G : Type κ} → (F → Option G) → List F → Option (List G)
clone_all clone [] = some []
clone_all clone (f ∷ fs) = elim (clone f) [
  | none ↦ none
  | some g ↦ elim (clone_all clone fs) [ none ↦ none | some gs ↦ some (g ∷ gs) ]
]

abbrev pub clone_feeds {ℓ κ} :
    {F : Type ℓ} {G : Type κ} → (F → Option G) → F → List F → Option (G × List G)
clone_feeds clone f fs = elim (clone f) [
  | none ↦ none
  | some g ↦ elim (clone_all clone fs) [ none ↦ none | some gs ↦ some (g, gs) ]
]

module _ {S W : Type 0} ⦃d : Double W⦄ where
  -- A new engine with the worker's clones.
  unfoldable pub engine_of : OptimizerConfig W → Clocked W → List (Clocked W) → S → Cerebro S W
  unfolding set_cash set_commission init
  engine_of config master contexts strategy = record {
    master = master;
    contexts = contexts;
    strategies = record { strat = strategy; entered_next = false } ∷ [];
    broker =
        set_commission config.commission
          (set_cash config.cash (init Currency.usd (d.lit 10000) none config.commission));
    warmup_end_timestamp_ms = pos 0;
  }

  abbrev pub extracted :
      (Cerebro S W → ParamMap W → OptResult W) → ParamMap W → Throws (Cerebro S W) → Outcome W
  extracted extractor m (returns e) = Outcome.finished (record (extractor e m) { params = m })
  extracted extractor m (throws message) = Outcome.terminates

module _ {S W : Type 0} ⦃d : Double W⦄ (c : CivilCalendar) (milliseconds : DateTime → ℤ)
    (user : Strategies S W) (default_params : S → ParamMap W)
    (with_params : ParamMap W → S → S) where
  -- `Strategy::set_params`: the entry's values on top of the strategy's defaults.
  unfoldable pub set_params : ParamMap W → S → S
  unfolding merge_params
  set_params overrides s = with_params (merge_params (default_params s) overrides) s

  -- A worker's work on an entry with its clones of the feeds.
  unfoldable pub run_entry :
      OptimizerConfig W
      → (ParamMap W → S)
      → (Cerebro S W → ParamMap W → OptResult W)
      → ParamMap W
      → Option (Clocked W × List (Clocked W))
      → Outcome W
  unfolding engine_of run set_params
  run_entry config factory extractor m none = Outcome.not_cloned
  run_entry config factory extractor m (some (master, contexts)) =
      extracted extractor m
        (run c milliseconds user true (engine_of config master contexts (set_params m (factory m))))

  -- A worker's work on an entry.
  unfoldable pub evaluate :
      {F : Type 0}
      → OptimizerConfig W
      → (F → Option (Clocked W))
      → F
      → List F
      → (ParamMap W → S)
      → (Cerebro S W → ParamMap W → OptResult W)
      → ParamMap W
      → Outcome W
  unfolding run_entry
  evaluate config clone first rest factory extractor m =
      run_entry config factory extractor m (clone_feeds clone first rest)

-- `run` with a way to work on an entry, for a schedule of the workers.
unfoldable pub optimize :
    {W : Type 0} ⦃d : Double W⦄ (attempt : ParamMap W → Outcome W)
    → OptimizerConfig W
    → ℕ
    → List (ParamRange W)
    → List ℕ
    → Pool W
unfolding generate_param_grid launch moves
optimize attempt config hardware ranges schedule =
    let grid = generate_param_grid ranges in
    moves attempt grid schedule (launch config hardware grid)
