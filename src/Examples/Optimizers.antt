-- ===== src/Examples/Optimizers.antt =====
-- Two workers over a grid of two entries, on a feed of one bar, with a strategy that only watches.
use strat_forge.Common.{ℕ, ◌+◌, ◌*◌, ◌≤◌, min, some, List, [], ◌∷◌, ◌≡◌, refl, arith, map, length}
use strat_forge.Common.Int.{ℤ, pos}
use strat_forge.Double.Lots.{lots}
use strat_forge.Params.{ParamValue, ParamMap, find, merge_params}
use strat_forge.Params.Merged.{find-merge_params}
use strat_forge.Broker.Currency.{iso_number}
use strat_forge.Broker.Process.{process_orders, close_groups, walk}
use strat_forge.Data.Line.{copies}
use strat_forge.Engine.Clock.{Clocked}
use strat_forge.Engine.Strategies.{Strategies, Plan}
use strat_forge.Engine.Cerebro.{Cerebro, run}
use strat_forge.Engine.Optimizer.{
  OptResult, ParamRange, Outcome, Worker, OptimizerConfig, generate_param_grid, optimize,
  thread_count, launch, evaluate,
}
use strat_forge.Engine.Optimizer.Grid.{assign_all, choices, generate_param_grid-choices}
use strat_forge.Engine.Optimizer.Results.{work, AllEnded, optimize-Results}
use strat_forge.Engine.Optimizer.Ends.{AllCanMove, optimize-Ends}
use strat_forge.Examples.Data.{one_each}
use strat_forge.Examples.Engines.{idle_feed, row_at, thirty_days}

abbrev period : ParamRange ℤ
period = record {
  name = "period";
  values = ParamValue.int64 (pos 5) ∷ ParamValue.int64 (pos 9) ∷ [];
}

abbrev stop_loss : ParamRange ℤ
stop_loss = record { name = "stop_loss"; values = ParamValue.double (pos 2) ∷ [] }

abbrev ranges : List (ParamRange ℤ)
ranges = period ∷ stop_loss ∷ []

abbrev grid : List (ParamMap ℤ)
grid = generate_param_grid ranges

generate_param_grid-choices_example : grid ≡ map (assign_all [] ranges) (choices ranges)
generate_param_grid-choices_example = generate_param_grid-choices period (stop_loss ∷ [])

abbrev defaults : ParamMap ℤ
defaults = ("period", ParamValue.int64 (pos 20)) ∷ ("size", ParamValue.int64 (pos 1)) ∷ []

abbrev overrides : ParamMap ℤ
overrides = ("period", ParamValue.int64 (pos 5)) ∷ []

find-merge_params_example :
    find "period" (merge_params defaults overrides) ≡ some (ParamValue.int64 (pos 5))
unfolding find
find-merge_params_example = find-merge_params "period" defaults overrides (refl, tt)

-- Its state is its parameters.
abbrev watching : Strategies (ParamMap ℤ) ℤ
watching = record { minimum_period = λ s k. 1; callback = λ cb fs b s. Plan.done s }

abbrev opt_config : OptimizerConfig ℤ
opt_config = record { cash = pos 1000; commission = one_each; max_threads = 2 }

abbrev feed : Clocked ℤ
feed = idle_feed 1 (row_at 0 10 ∷ [])

abbrev opt_result : Cerebro (ParamMap ℤ) ℤ → ParamMap ℤ → OptResult ℤ
opt_result e m = record {
  params = [];
  final_value = e.broker.initial_cash;
  sharpe_ratio = pos 0;
  max_drawdown = pos 0;
  total_trades = length e.broker.closed_trades;
}

abbrev worker : ParamMap ℤ → Outcome ℤ
worker =
    work thirty_days (λ t. t) watching (λ s. defaults) (λ m s. m) opt_config some feed [] (λ m. [])
      opt_result

abbrev expected : ParamMap ℤ → OptResult ℤ
expected m = record {
  params = m;
  final_value = pos 1000;
  sharpe_ratio = pos 0;
  max_drawdown = pos 0;
  total_trades = 0;
}

abbrev in_turn : List ℕ
in_turn = 0 ∷ 1 ∷ 1 ∷ 0 ∷ 1 ∷ 0 ∷ []

worker-finished : (m : ParamMap ℤ) → worker m ≡ Outcome.finished (expected m)
unfolding work evaluate iso_number process_orders walk close_groups run
worker-finished m = refl

run_all : AllEnded (optimize worker opt_config 8 ranges in_turn)
unfolding optimize launch thread_count copies generate_param_grid work evaluate iso_number
    process_orders walk close_groups run
run_all = (refl, (refl, tt))

optimize-Results_example :
    ((optimize worker opt_config 8 ranges in_turn).results ≡ map expected grid)
    × (map (λ r. r.params) (optimize worker opt_config 8 ranges in_turn).results ≡ grid)
unfolding generate_param_grid
optimize-Results_example =
    optimize-Results thirty_days (λ t. t) watching (λ s. defaults) (λ m s. m) opt_config some feed
      [] (λ m. []) opt_result 8 ranges in_turn expected (omega arith)
      (worker-finished _, (worker-finished _, tt)) run_all

optimize-Ends_example :
    (1 ≤ min (thread_count 2 8) (length grid) + 2 * length grid)
    × ((more : List ℕ) × AllCanMove worker grid expected more
          (optimize worker opt_config 8 ranges (1 ∷ []))
        × AllEnded (optimize worker opt_config 8 ranges (1 ∷ more)))
unfolding generate_param_grid launch thread_count copies
optimize-Ends_example =
    optimize-Ends worker opt_config 8 ranges (1 ∷ []) expected (omega arith)
      (worker-finished _, (worker-finished _, tt)) ((Worker.waiting, refl, λ e. cc e), tt)
