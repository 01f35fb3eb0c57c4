-- ===== src/Corrective/Shadow/Once.antt =====
-- The shadow ledger reports every candidate once.
use strat_forge.Common.{
  ℕ, ◌+◌, List, [], ◌∷◌, ◌++◌, map, ◌≡◌, refl, ap, ◌∙◌, arith, if◌then◌else◌, ◌==◌,
}
use strat_forge.Common.Int.{ℤ}
use strat_forge.Double.{Double}
use strat_forge.Broker.Currency.{DateTime}
use strat_forge.Broker.State.{Feed}
use strat_forge.Corrective.Shadow.{
  ShadowEntry, OutcomeRecord, Call, calls, tick, flush_censored, add_shadow,
}

-- How many of the numbers are k.
unfoldable pub count : ℕ → List ℕ → ℕ
count k [] = 0
count k (x ∷ xs) = (if x == k then 1 else 0) + count k xs

count-append : (k : ℕ) (xs ys : List ℕ) → count k (xs ++ ys) ≡ count k xs + count k ys
unfolding count
count-append k [] ys = omega arith
count-append k (x ∷ xs) ys = omega (arith, count-append k xs ys)

map-append : {A : Type 0} (f : A → ℕ) (xs ys : List A) → map f (xs ++ ys) ≡ map f xs ++ map f ys
map-append f [] ys = refl
map-append f (x ∷ xs) ys = ap (λ r. f x ∷ r) (map-append f xs ys)

module _ {W : Type 0} where
  abbrev pub open_ids : List (ShadowEntry W) → List ℕ
  open_ids = map λ s. s.candidate_id

  abbrev pub reported : List (OutcomeRecord W) → List ℕ
  reported = map λ r. r.candidate_id

  abbrev pub added : List (Call W) → List ℕ
  added [] = []
  added (Call.adds e ∷ cs) = e.candidate_id ∷ added cs
  added (Call.ticks feeds ∷ cs) = added cs
  added (Call.flushes feeds ∷ cs) = added cs

  count_open :
      (k : ℕ) (xs ys : List (ShadowEntry W))
      → count k (open_ids (xs ++ ys)) ≡ count k (open_ids xs) + count k (open_ids ys)
  count_open k xs ys =
      ap (count k) (map-append (λ s. s.candidate_id) xs ys)
      ∙ count-append k (open_ids xs) (open_ids ys)

  count-reported :
      (k : ℕ) (xs ys : List (OutcomeRecord W))
      → count k (reported (xs ++ ys)) ≡ count k (reported xs) + count k (reported ys)
  count-reported k xs ys =
      ap (count k) (map-append (λ r. r.candidate_id) xs ys)
      ∙ count-append k (reported xs) (reported ys)

module _ {W : Type 0} ⦃d : Double W⦄ (nanoseconds : DateTime → ℤ) where
  tick-once :
      (k : ℕ) (feeds : List (Feed W)) (os : List (ShadowEntry W))
      → let r = tick nanoseconds feeds os in
        count k (open_ids r.0) + count k (reported r.1) ≡ count k (open_ids os)
  unfolding tick count
  tick-once k feeds [] = refl
  tick-once k feeds (s ∷ os) = ground (arith, tick-once k feeds os)

  flush-once :
      (k : ℕ) (feeds : List (Feed W)) (os : List (ShadowEntry W))
      → count k (reported (flush_censored nanoseconds feeds os).1) ≡ count k (open_ids os)
  unfolding count
  flush-once k feeds [] = refl
  flush-once k feeds (s ∷ os) = omega (arith, flush-once k feeds os)

  calls-once_from :
      (k : ℕ) (cs : List (Call W)) (os : List (ShadowEntry W))
      → let r = calls nanoseconds cs os in
        count k (open_ids r.0) + count k (reported r.1) ≡ count k (open_ids os) + count k (added cs)
  unfolding calls count
  calls-once_from k [] os = ground arith
  calls-once_from k (Call.adds e ∷ cs) os =
      omega (arith, calls-once_from k cs (add_shadow e os), count_open k os (e ∷ []))
  calls-once_from k (Call.ticks feeds ∷ cs) os =
      let r = tick nanoseconds feeds os in
      let rest = calls nanoseconds cs r.0 in
      omega (arith, calls-once_from k cs r.0, count-reported k r.1 rest.1, tick-once k feeds os)
  calls-once_from k (Call.flushes feeds ∷ cs) os =
      let r = flush_censored nanoseconds feeds os in
      let rest = calls nanoseconds cs [] in
      omega (arith, calls-once_from k cs [], count-reported k r.1 rest.1, flush-once k feeds os)

  -- After any calls from an empty ledger: a candidate's number of records and of open entries make
  -- up the number of times it was added.
  pub calls-once :
      (k : ℕ) (cs : List (Call W))
      → let r = calls nanoseconds cs [] in
        count k (open_ids r.0) + count k (reported r.1) ≡ count k (added cs)
  unfolding count
  calls-once k cs = omega (arith, calls-once_from k cs [])
