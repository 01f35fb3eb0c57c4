-- ===== src/Engine/Optimizer/Ends.antt =====
-- The workers come to an end: every move brings the pool closer to it.
use strat_forge.Common.{
  ℕ, zero, suc, ◌+◌, ◌-◌, ◌*◌, ◌≤◌, ◌<◌, min, some, List, [], ◌∷◌, ◌++◌, ◌≡◌, refl, sym, ap, subst,
  arith, ◌⊎◌, inl, inr, length, get_elem?, set, All, leb, Bool-cases, if◌then◌else◌,
}
use strat_forge.Common.Writes.{get_elem?-exists, All-get_elem?}
use strat_forge.Double.{Double}
use strat_forge.Data.Line.{copies}
use strat_forge.Params.{ParamMap}
use strat_forge.Engine.Optimizer.{
  OptResult, ParamRange, Outcome, Worker, Pool, OptimizerConfig, claim, complete, move, move_from,
  moves, launch, thread_count, generate_param_grid, optimize,
}
use strat_forge.Engine.Optimizer.Claims.{
  AllFinish, IsSound, complete-eq, move-IsSound, moves-IsSound,
}
use strat_forge.Engine.Optimizer.Results.{AllEnded, launch-IsSound}

-- The moves that a worker has left on the entry that it is at.
abbrev load : Worker → ℕ
load Worker.waiting = 1
load (Worker.working i) = 2
load Worker.ended = 0

abbrev loads : List Worker → ℕ
loads [] = 0
loads (w ∷ ws) = load w + loads ws

loads-set :
    (ws : List Worker) (t : ℕ) (w v : Worker)
    → get_elem? ws t ≡ some w
    → loads (set ws t v) + load w ≡ loads ws + load v
loads-set [] t w v h = absurd (cc h)
loads-set (x ∷ ws) zero w v h = let e : x ≡ w = cc h in rw e (omega arith)
loads-set (x ∷ ws) (suc t) w v h = omega (arith, loads-set ws t w v h)

loads-copies : (n : ℕ) → loads (copies n Worker.waiting) ≡ n
unfolding copies
loads-copies zero = refl
loads-copies (suc n) = omega (arith, loads-copies n)

module _ {W : Type 0} where
  -- The worker is there, and has not returned.
  abbrev pub CanMove : ℕ → Pool W → Type 0
  CanMove t p = (w : Worker) × (get_elem? p.workers t ≡ some w) × (w ≡ Worker.ended → ⊥)

idle_or_not :
    (ws : List Worker)
    → All (λ w. w ≡ Worker.ended) ws
      ⊎ ((t : ℕ) × (w : Worker) × (get_elem? ws t ≡ some w) × (w ≡ Worker.ended → ⊥))
idle_or_not [] = inl tt
idle_or_not (Worker.waiting ∷ ws) = inr (0, Worker.waiting, refl, λ e. cc e)
idle_or_not (Worker.working i ∷ ws) = inr (0, Worker.working i, refl, λ e. cc e)
idle_or_not (Worker.ended ∷ ws) = elim (idle_or_not ws) [
  | inl all ↦ inl (refl, all)
  | inr (t, w, h, n) ↦ inr (suc t, w, h, n)
]

module _ {W : Type 0} (attempt : ParamMap W → Outcome W) (grid : List (ParamMap W))
    (eval : ParamMap W → OptResult W) where
  -- Every move is one of a worker that has not returned.
  abbrev pub AllCanMove : List ℕ → Pool W → Type 0
  AllCanMove [] p = Unit
  AllCanMove (t ∷ ts) p = CanMove t p × AllCanMove ts (move attempt grid t p)

  abbrev pub moves_left : Pool W → ℕ
  moves_left p = loads p.workers + 2 * (length grid - p.next_index)

  claim_nearer :
      (t : ℕ) (p : Pool W)
      → get_elem? p.workers t ≡ some Worker.waiting
      → moves_left (claim attempt grid t p) < moves_left p
  unfolding claim
  claim_nearer t p h = elim (Bool-cases (leb (length grid) p.next_index)) [
    | inl over ↦ rw over (omega (arith, loads-set p.workers t _ Worker.ended h))
    | inr left ↦
        rw left (ground (arith, left, loads-set p.workers t _ (Worker.working p.next_index) h))
  ]

  complete_nearer :
      (t i : ℕ) (p : Pool W)
      → AllFinish attempt grid eval
      → get_elem? p.workers t ≡ some (Worker.working i)
      → IsSound grid eval p
      → moves_left (complete attempt grid t i p) < moves_left p
  complete_nearer t i p all h s =
      let inside : i < length grid = omega (arith, s.claimed t i h, s.in_grid) in
      let (m, at_i) = get_elem?-exists grid i inside in
      let ends : attempt m ≡ Outcome.finished (eval m) =
        All-get_elem? (λ x. attempt x ≡ Outcome.finished (eval x)) grid i m all at_i in
      subst (λ q. moves_left q < moves_left p)
        (sym (complete-eq attempt grid eval t i p m at_i ends))
        (omega (arith, loads-set p.workers t _ Worker.waiting h))

  move_nearer :
      (t : ℕ) (p : Pool W)
      → AllFinish attempt grid eval
      → CanMove t p
      → IsSound grid eval p
      → moves_left (move attempt grid t p) < moves_left p
  unfolding move move_from
  move_nearer t p all (w, h, n) s =
      subst (λ q. moves_left q < moves_left p)
        (sym
          (ap (λ b. if b then p else move_from attempt grid (get_elem? p.workers t) t p) s.goes_on))
        (subst (λ o. moves_left (move_from attempt grid o t p) < moves_left p) (sym h) (from w h n))
    where
      from :
          (w' : Worker)
          → get_elem? p.workers t ≡ some w'
          → (w' ≡ Worker.ended → ⊥)
          → moves_left (move_from attempt grid (some w') t p) < moves_left p
      from Worker.ended k m = absurd (m refl)
      from Worker.waiting k m = claim_nearer t p k
      from (Worker.working i) k m = complete_nearer t i p all k s

  moves_within :
      (ts : List ℕ) (p : Pool W)
      → AllFinish attempt grid eval
      → IsSound grid eval p
      → AllCanMove ts p
      → length ts ≤ moves_left p
  moves_within [] p all s b = omega arith
  moves_within (t ∷ ts) p all s (b, bs) = omega (
    arith,
    move_nearer t p all b s,
    moves_within ts (move attempt grid t p) all (move-IsSound attempt grid eval t p all s) bs,
  )

  finishes :
      (fuel : ℕ) (p : Pool W)
      → moves_left p ≤ fuel
      → AllFinish attempt grid eval
      → IsSound grid eval p
      → (ts : List ℕ) × AllCanMove ts p × AllEnded (moves attempt grid ts p)
  unfolding moves
  finishes zero p l all s = elim (idle_or_not p.workers) [
    | inl done ↦ ([], tt, done)
    | inr (t, w, h, n) ↦ absurd (omega (arith, l, move_nearer t p all (w, h, n) s))
  ]
  finishes (suc fuel) p l all s = elim (idle_or_not p.workers) [
    | inl done ↦ ([], tt, done)
    | inr (t, w, h, n) ↦
        let (ts, can, done) =
          finishes fuel (move attempt grid t p) (omega (arith, l, move_nearer t p all (w, h, n) s))
            all (move-IsSound attempt grid eval t p all s) in
        (t ∷ ts, ((w, h, n), can), done)
  ]

  moves-append :
      (ts us : List ℕ) (p : Pool W)
      → moves attempt grid (ts ++ us) p ≡ moves attempt grid us (moves attempt grid ts p)
  unfolding moves
  moves-append [] us p = refl
  moves-append (t ∷ ts) us p = moves-append ts us (move attempt grid t p)

  launch_moves :
      ⦃d : Double W⦄ (config : OptimizerConfig W) (hardware : ℕ)
      → moves_left (launch config hardware grid)
        ≡ min (thread_count config.max_threads hardware) (length grid) + 2 * length grid
  unfolding launch
  launch_moves config hardware =
      omega (arith, loads-copies (min (thread_count config.max_threads hardware) (length grid)))

-- With a grid that is not empty and whose entries all run to their end: any schedule in which only
-- workers move that have not returned has at most two moves for every entry and one for every thread,
-- and it can be continued, by such moves, until every worker has returned.
pub optimize-Ends :
    {W : Type 0} ⦃d : Double W⦄ (attempt : ParamMap W → Outcome W) (config : OptimizerConfig W)
    (hardware : ℕ) (ranges : List (ParamRange W)) (schedule : List ℕ)
    (eval : ParamMap W → OptResult W)
    → let grid = generate_param_grid ranges in
      0 < length grid
      → AllFinish attempt grid eval
      → AllCanMove attempt grid eval schedule (launch config hardware grid)
      → (length schedule
          ≤ min (thread_count config.max_threads hardware) (length grid) + 2 * length grid)
        × ((more : List ℕ) × AllCanMove attempt grid eval more
              (optimize attempt config hardware ranges schedule)
            × AllEnded (optimize attempt config hardware ranges (schedule ++ more)))
unfolding optimize
optimize-Ends attempt config hardware ranges schedule eval some_entry all can =
    let grid = generate_param_grid ranges in
    let p = launch config hardware grid in
    let s = launch-IsSound grid eval config hardware some_entry in
    let q = moves attempt grid schedule p in
    let (more, can_more, done) =
      finishes attempt grid eval (moves_left attempt grid eval q) q (omega arith) all
        (moves-IsSound attempt grid eval schedule p all s) in
    (
      omega (
        arith,
        moves_within attempt grid eval schedule p all s can,
        launch_moves attempt grid eval config hardware,
      ),
      (
        more,
        can_more,
        subst (λ x. AllEnded x) (sym (moves-append attempt grid eval schedule more p)) done,
      ),
    )
