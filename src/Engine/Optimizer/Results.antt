-- ===== src/Engine/Optimizer/Results.antt =====
-- The results do not depend on the schedule.
use strat_forge.Common.{
  ℕ, zero, suc, ◌≤◌, ◌<◌, min, Option, none, some, List, [], ◌∷◌, map, ◌≡◌, refl, sym, ap, ap₂, ◌∙◌,
  arith, inl, inr, length, get_elem?, All,
}
use strat_forge.Common.Int.{ℤ}
use strat_forge.Common.Throws.{Throws, returns, throws}
use strat_forge.Common.Writes.{get_elem?-exists, All-get_elem?, eq-get_elem?, length-map}
use strat_forge.Double.{Double}
use strat_forge.Data.Line.{copies}
use strat_forge.Broker.Currency.{DateTime}
use strat_forge.Data.Interval.{CivilCalendar}
use strat_forge.Engine.Clock.{Clocked}
use strat_forge.Engine.Strategies.{Strategies}
use strat_forge.Engine.Cerebro.{Cerebro}
use strat_forge.Params.{ParamMap}
use strat_forge.Engine.Optimizer.{
  OptResult, ParamRange, Outcome, Worker, Pool, OptimizerConfig, launch, thread_count,
  generate_param_grid, optimize, evaluate, extracted, run_entry, clone_feeds,
}
use strat_forge.Engine.Optimizer.Claims.{AllFinish, IsSound, moves-IsSound}

length-copies : {A : Type 0} (n : ℕ) (a : A) → length (copies n a) ≡ n
unfolding copies
length-copies zero a = refl
length-copies (suc n) a = ap suc (length-copies n a)

copies-get_elem? : {A : Type 0} (n i : ℕ) (a b : A) → get_elem? (copies n a) i ≡ some b → b ≡ a
unfolding copies
copies-get_elem? zero i a b h = absurd (cc h)
copies-get_elem? (suc n) zero a b h = cc h
copies-get_elem? (suc n) (suc i) a b h = copies-get_elem? n i a b h

thread_count_positive : (n h : ℕ) → 0 < thread_count n h
unfolding thread_count
thread_count_positive n h = ground arith

module _ {W : Type 0} where
  -- Every worker has returned.
  abbrev pub AllEnded : Pool W → Type 0
  AllEnded p = All (λ w. w ≡ Worker.ended) p.workers

module _ {W : Type 0} (grid : List (ParamMap W)) (eval : ParamMap W → OptResult W) where
  pub launch-IsSound :
      ⦃d : Double W⦄ (config : OptimizerConfig W) (hardware : ℕ)
      → 0 < length grid
      → IsSound grid eval (launch config hardware grid)
  unfolding launch
  launch-IsSound config hardware h =
      let n = thread_count config.max_threads hardware in
      record {
        staffed = ground (
          arith,
          length-copies (min n (length grid)) Worker.waiting,
          thread_count_positive config.max_threads hardware,
        );
        in_grid = omega arith;
        sized = length-copies (length grid) _;
        goes_on = refl;
        claimed = λ t i k. absurd (cc (copies-get_elem? (min n (length grid)) t _ _ k));
        all_claimed = λ t k. absurd (cc (copies-get_elem? (min n (length grid)) t _ _ k));
        accounted = λ i l. absurd (omega (arith, l));
      }

  pub ended-results : (p : Pool W) → IsSound grid eval p → AllEnded p → p.results ≡ map eval grid
  ended-results p s all =
      let (w, at_0) = get_elem?-exists p.workers 0 s.staffed in
      let returned : w ≡ Worker.ended =
        All-get_elem? (λ x. x ≡ Worker.ended) p.workers 0 w all at_0 in
      let over : length grid ≤ p.next_index = s.all_claimed 0 (at_0 ∙ ap some returned) in
      eq-get_elem? p.results (map eval grid) (s.sized ∙ sym (length-map eval grid)) (λ i l.
        elim (s.accounted i (omega (arith, l, over, s.sized))) [
          | inl (t, k) ↦ absurd (cc (All-get_elem? (λ x. x ≡ Worker.ended) p.workers t _ all k))
          | inr done ↦ done
        ])

module _ {F S W : Type 0} ⦃d : Double W⦄ (c : CivilCalendar) (milliseconds : DateTime → ℤ)
    (user : Strategies S W) (default_params : S → ParamMap W) (with_params : ParamMap W → S → S)
    (config : OptimizerConfig W) (clone : F → Option (Clocked W)) (first : F) (rest : List F)
    (factory : ParamMap W → S) (extractor : Cerebro S W → ParamMap W → OptResult W) where
  unfoldable pub work : ParamMap W → Outcome W
  unfolding evaluate
  work =
      evaluate c milliseconds user default_params with_params config clone first rest factory
        extractor

  extracted-params :
      (m : ParamMap W) (e : Throws (Cerebro S W)) (r : OptResult W)
      → extracted extractor m e ≡ Outcome.finished r
      → r.params ≡ m
  extracted-params m (returns x) r h =
      let e : record (extractor x m) { params = m } ≡ r = cc h in sym (ap (λ y. y.params) e)
  extracted-params m (throws message) r h = absurd (cc h)

  entry-params :
      (m : ParamMap W) (feeds : Option (Clocked W × List (Clocked W))) (r : OptResult W)
      → run_entry c milliseconds user default_params with_params config factory extractor m feeds
        ≡ Outcome.finished r
      → r.params ≡ m
  unfolding run_entry
  entry-params m none r h = absurd (cc h)
  entry-params m (some (master, contexts)) r h = extracted-params m _ r h

  evaluated-params :
      (eval : ParamMap W → OptResult W) (grid : List (ParamMap W))
      → AllFinish work grid eval
      → map (λ r. r.params) (map eval grid) ≡ grid
  unfolding evaluate work
  evaluated-params eval [] all = refl
  evaluated-params eval (m ∷ grid) all =
      ap₂ ◌∷◌ (entry-params m (clone_feeds clone first rest) (eval m) all.0)
        (evaluated-params eval grid all.1)

  -- With a grid that is not empty and whose entries all run to their end: after any schedule that
  -- leaves no worker at work, whatever the number of threads, the i-th result is the evaluation of the
  -- i-th entry of the grid, and names that entry as its parameters.
  pub optimize-Results :
      (hardware : ℕ) (ranges : List (ParamRange W)) (schedule : List ℕ)
      (eval : ParamMap W → OptResult W)
      → let grid = generate_param_grid ranges in
        let end_pool = optimize work config hardware ranges schedule in
        0 < length grid
        → AllFinish work grid eval
        → AllEnded end_pool
        → (end_pool.results ≡ map eval grid) × (map (λ r. r.params) end_pool.results ≡ grid)
  unfolding optimize
  optimize-Results hardware ranges schedule eval some_entry all returned =
      let grid = generate_param_grid ranges in
      let done =
        ended-results grid eval (optimize work config hardware ranges schedule)
          (moves-IsSound work grid eval schedule (launch config hardware grid) all
            (launch-IsSound grid eval config hardware some_entry))
          returned in
      (done, ap (map (λ r. r.params)) done ∙ evaluated-params eval grid all)
