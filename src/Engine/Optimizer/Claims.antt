-- ===== src/Engine/Optimizer/Claims.antt =====
-- What holds of the pool of workers whatever the schedule.
use strat_forge.Common.{
  ℕ, suc, ◌≤◌, ◌<◌, false, Option, none, some, List, [], ◌∷◌, map, ◌≡◌, refl, sym, ap, subst, ◌∙◌,
  arith, ◌⊎◌, inl, inr, leb, ◌==◌, if◌then◌else◌, length, get_elem?, set, All, Bool-cases,
}
use strat_forge.Common.Writes.{
  length-set, get_elem?-set_same, get_elem?-set_cases, get_elem?-set_kept, get_elem?-set_other,
  get_elem?-below, get_elem?-exists, All-get_elem?, get_elem?-map,
}
use strat_forge.Params.{ParamMap}
use strat_forge.Engine.Optimizer.{
  OptResult, Outcome, Worker, Pool, claim, complete, settle_entry, move, move_from, moves,
}

module _ {W : Type 0} where
  -- The outcomes of a grid whose every entry can be run to its end.
  abbrev pub AllFinish :
      (ParamMap W → Outcome W) → List (ParamMap W) → (ParamMap W → OptResult W) → Type 0
  AllFinish attempt grid eval = All (λ m. attempt m ≡ Outcome.finished (eval m)) grid

  -- An entry that was claimed is at work, or its result is there; nobody has returned while entries
  -- are left.
  pub record IsSound (grid : List (ParamMap W)) (eval : ParamMap W → OptResult W) (p : Pool W)
      : Type 0 where
    pub staffed : 0 < length p.workers
    pub in_grid : p.next_index ≤ length grid
    pub sized : length p.results ≡ length grid
    pub goes_on : p.terminated ≡ false
    pub claimed : (t i : ℕ) → get_elem? p.workers t ≡ some (Worker.working i) → i < p.next_index
    pub all_claimed :
        (t : ℕ) → get_elem? p.workers t ≡ some Worker.ended → length grid ≤ p.next_index
    pub accounted :
        (i : ℕ)
        → i < p.next_index
        → ((t : ℕ) × (get_elem? p.workers t ≡ some (Worker.working i)))
          ⊎ (get_elem? p.results i ≡ get_elem? (map eval grid) i)

same_or_not : (i j : ℕ) → (i ≡ j) ⊎ (i ≡ j → ⊥)
same_or_not i j = elim (Bool-cases (i == j)) [
  | inl y ↦ inl (ground (arith, y))
  | inr n ↦ inr (λ e. ground (arith, n, e))
]

worker_index : {i j : ℕ} → Worker.working i ≡ Worker.working j → i ≡ j
worker_index e = cc e

below_suc : (i n : ℕ) → i < suc n → (i < n) ⊎ (i ≡ n)
below_suc i n h = ground arith

module _ {W : Type 0} (attempt : ParamMap W → Outcome W) (grid : List (ParamMap W))
    (eval : ParamMap W → OptResult W) where
  abbrev pub Sound : Pool W → Type 0
  Sound = IsSound grid eval

  staffed_after : (t : ℕ) (w : Worker) (p : Pool W) → Sound p → 0 < length (set p.workers t w)
  staffed_after t w p s = omega (arith, length-set p.workers t w, s.staffed)

  claim-IsSound :
      (t : ℕ) (p : Pool W)
      → get_elem? p.workers t ≡ some Worker.waiting
      → Sound p
      → Sound (claim attempt grid t p)
  unfolding claim
  claim-IsSound t p h s = elim (Bool-cases (leb (length grid) p.next_index)) [
    | inl over ↦ rw over (record {
      staffed = staffed_after t Worker.ended p s;
      in_grid = s.in_grid;
      sized = s.sized;
      goes_on = s.goes_on;
      claimed = λ t' i k. elim (get_elem?-set_cases p.workers t t' _ _ k) [
        | inl e ↦ absurd (cc e)
        | inr old ↦ s.claimed t' i old
      ];
      all_claimed = λ t' k. ground (arith, over);
      accounted = λ i l. elim (s.accounted i l) [
        | inl (t', k) ↦ inl (t', get_elem?-set_kept p.workers t t' Worker.ended _ _ k h (λ e. cc e))
        | inr done ↦ inr done
      ];
    })
    | inr left ↦ rw left (record {
      staffed = staffed_after t (Worker.working p.next_index) p s;
      in_grid = ground (arith, left);
      sized = s.sized;
      goes_on = s.goes_on;
      claimed = λ t' i k. elim (get_elem?-set_cases p.workers t t' _ _ k) [
        | inl e ↦ let e' : i ≡ p.next_index = cc e in omega (arith, e')
        | inr old ↦ omega (arith, s.claimed t' i old)
      ];
      all_claimed = λ t' k. elim (get_elem?-set_cases p.workers t t' _ _ k) [
        | inl e ↦ absurd (cc e)
        | inr old ↦ omega (arith, s.all_claimed t' old)
      ];
      accounted = λ i l. elim (below_suc i p.next_index l) [
        | inl old ↦ elim (s.accounted i old) [
          | inl (t', k) ↦ inl (t', get_elem?-set_kept p.workers t t' _ _ _ k h (λ e. cc e))
          | inr done ↦ inr done
        ]
        | inr e ↦ inl (
          t,
          get_elem?-set_same p.workers t (Worker.working p.next_index)
                (get_elem?-below p.workers t _ h)
              ∙ ap (λ x. some (Worker.working x)) (sym e),
        )
      ];
    })
  ]

  pub complete-eq :
      (t i : ℕ) (p : Pool W) (m : ParamMap W)
      → get_elem? grid i ≡ some m
      → attempt m ≡ Outcome.finished (eval m)
      → complete attempt grid t i p
        ≡ record p { results = set p.results i (eval m); workers = set p.workers t Worker.waiting }
  unfolding complete settle_entry
  complete-eq t i p m at_i ends =
      ap (λ o. elim o [ none ↦ p | some x ↦ settle_entry t i (attempt x) p ]) at_i
      ∙ ap (λ r. settle_entry t i r p) ends

  complete-IsSound :
      (t i : ℕ) (p : Pool W)
      → AllFinish attempt grid eval
      → get_elem? p.workers t ≡ some (Worker.working i)
      → Sound p
      → Sound (complete attempt grid t i p)
  complete-IsSound t i p all h s =
      let inside : i < length grid = omega (arith, s.claimed t i h, s.in_grid) in
      let (m, at_i) = get_elem?-exists grid i inside in
      let ends : attempt m ≡ Outcome.finished (eval m) =
        All-get_elem? (λ x. attempt x ≡ Outcome.finished (eval x)) grid i m all at_i in
      subst Sound (sym (complete-eq t i p m at_i ends)) (record {
        staffed = staffed_after t Worker.waiting p s;
        in_grid = s.in_grid;
        sized = length-set p.results i (eval m) ∙ s.sized;
        goes_on = s.goes_on;
        claimed = λ t' j k. elim (get_elem?-set_cases p.workers t t' _ _ k) [
          | inl e ↦ absurd (cc e)
          | inr old ↦ s.claimed t' j old
        ];
        all_claimed = λ t' k. elim (get_elem?-set_cases p.workers t t' _ _ k) [
          | inl e ↦ absurd (cc e)
          | inr old ↦ s.all_claimed t' old
        ];
        accounted = λ j l. elim (same_or_not i j) [
          | inl e ↦ inr (
              subst (λ x. get_elem? (set p.results i (eval m)) x ≡ get_elem? (map eval grid) x) e
                (get_elem?-set_same p.results i (eval m) (omega (arith, s.sized, inside))
                  ∙ sym (get_elem?-map eval grid i m at_i)))
          | inr n ↦ elim (s.accounted j l) [
            | inl (t', k) ↦
                inl
                  (t', get_elem?-set_kept p.workers t t' _ _ _ k h (λ e. n (sym (worker_index e))))
            | inr done ↦ inr (get_elem?-set_other p.results i j (eval m) n ∙ done)
          ]
        ];
      })

  pub move-IsSound :
      (t : ℕ) (p : Pool W) → AllFinish attempt grid eval → Sound p → Sound (move attempt grid t p)
  unfolding move move_from
  move-IsSound t p all s =
      subst Sound
        (sym
          (ap (λ b. if b then p else move_from attempt grid (get_elem? p.workers t) t p) s.goes_on))
        (from (get_elem? p.workers t) refl)
    where
      from : (o : Option Worker) → get_elem? p.workers t ≡ o → Sound (move_from attempt grid o t p)
      from none h = s
      from (some Worker.ended) h = s
      from (some Worker.waiting) h = claim-IsSound t p h s
      from (some (Worker.working i)) h = complete-IsSound t i p all h s

  pub moves-IsSound :
      (ts : List ℕ) (p : Pool W)
      → AllFinish attempt grid eval
      → Sound p
      → Sound (moves attempt grid ts p)
  unfolding moves
  moves-IsSound [] p all s = s
  moves-IsSound (t ∷ ts) p all s =
      moves-IsSound ts (move attempt grid t p) all (move-IsSound t p all s)
