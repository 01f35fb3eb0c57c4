-- ===== src/Data/Line/Cursor.antt =====
-- The cursor of a line stays on its data, and what is read through it.
use strat_forge.Common.{
  ℕ, zero, suc, ◌+◌, ◌-◌, ◌<◌, ◌≤◌, none, some, List, [], ◌∷◌, ◌++◌, ◌≡◌, refl, sym, ap, ◌∙◌, arith,
  ◌⊎◌, inr, length, length-append, get_elem?,
}
use strat_forge.Common.Writes.{length-set}
use strat_forge.Common.Int.{pos, negsuc}
use strat_forge.Data.Line.{
  Line, new_line, forward, set_current, advance, home, extend, copies, at_offset, Call, call, calls,
  advance_by,
}

plus_zero : (n : ℕ) → n + 0 ≡ n
plus_zero n = omega arith

shift : (a n : ℕ) → suc a + n ≡ a + suc n
shift a n = omega arith

module _ {ℓ} {T : Type ℓ} where
  -- The cursor is on a value, or the line is empty with its cursor at the start.
  abbrev pub IsOnData : Line T → Type 0
  IsOnData l = (l.idx < length l.values) ⊎ ((l.idx ≡ 0) × (length l.values ≡ 0))

  call-IsOnData : (c : Call T) (l : Line T) → IsOnData l → IsOnData (call c l)
  unfolding call forward set_current advance home extend
  call-IsOnData (Call.forwards v) l h = ground (arith, length-append l.values (v ∷ []))
  call-IsOnData (Call.sets v) l h =
      ground (arith, length-append l.values (v ∷ []), length-set l.values l.idx v)
  call-IsOnData Call.advances l h = ground arith
  call-IsOnData Call.homes l h = ground arith
  call-IsOnData (Call.extends n v) l h = ground (arith, length-append l.values (copies n v))

  -- From a new line, after any calls in any order, the cursor is on a value, or the line is empty
  -- and its cursor at the start.
  pub calls-IsOnData : (cs : List (Call T)) → IsOnData (calls cs (new_line {T = T}))
  unfolding calls new_line
  calls-IsOnData cs = from cs (record { values = []; idx = 0 }) (inr (refl, refl))
    where
      from : (cs : List (Call T)) (l : Line T) → IsOnData l → IsOnData (calls cs l)
      from [] l h = h
      from (c ∷ cs) l h = from cs (call c l) (call-IsOnData c l h)

  get-append : (xs ys : List T) (i : ℕ) → i < length xs → get_elem? (xs ++ ys) i ≡ get_elem? xs i
  get-append [] ys i h = absurd (omega (arith, h))
  get-append (x ∷ xs) ys zero h = refl
  get-append (x ∷ xs) ys (suc i) h = get-append xs ys i (omega (arith, h))

  get-last : (xs : List T) (y : T) → get_elem? (xs ++ (y ∷ [])) (length xs) ≡ some y
  get-last [] y = refl
  get-last (x ∷ xs) y = get-last xs y

  get-past : (xs : List T) (i : ℕ) → length xs ≤ i → get_elem? xs i ≡ none
  get-past [] i h = refl
  get-past (x ∷ xs) zero h = absurd (omega (arith, h))
  get-past (x ∷ xs) (suc i) h = get-past xs i (omega (arith, h))

  get-at : (xs : List T) (i j : ℕ) → i ≡ j → get_elem? xs i ≡ get_elem? xs j
  get-at xs i j e = ap (λ n. get_elem? xs n) e

  forward-eq :
      (v : T) (l : Line T)
      → forward v l ≡ record { values = l.values ++ (v ∷ []); idx = length l.values }
  unfolding forward
  forward-eq v l =
      ap (λ i. record { values = l.values ++ (v ∷ []); idx = i })
        (omega (arith, length-append l.values (v ∷ [])))

  -- After a value is added to a line whose cursor is on its last value or that is empty, offset 0
  -- reads the new value, and each offset before it reads what the offset above it read.
  pub at_offset-forward :
      (v : T) (l : Line T) (k : ℕ)
      → (l.idx + 1 ≡ length l.values) ⊎ ((l.idx ≡ 0) × (length l.values ≡ 0))
      → (at_offset (forward v l) (pos 0) ≡ some v)
        × (at_offset (forward v l) (negsuc 0) ≡ at_offset l (pos 0))
        × (at_offset (forward v l) (negsuc (suc k)) ≡ at_offset l (negsuc k))
  unfolding at_offset
  at_offset-forward v l k h = rw (forward-eq v l) (
      ground (
        arith,
        get-last l.values v,
        ap (λ i. get_elem? (l.values ++ (v ∷ [])) i) (plus_zero (length l.values)),
        get-append l.values (v ∷ []) (length l.values - 1),
        ap (λ i. get_elem? l.values i) (plus_zero l.idx),
        get-past l.values l.idx,
        get-at l.values l.idx (length l.values - 1),
        get-at l.values (l.idx - suc k) (length l.values - suc (suc k)),
        get-append l.values (v ∷ []) (length l.values - suc (suc k)),
      ))

  advance-step :
      (l : Line T)
      → l.idx + 1 < length l.values
      → advance l ≡ record { values = l.values; idx = suc l.idx }
  unfolding advance
  advance-step l h = ground arith

  advance_by_lem :
      (n : ℕ) (l : Line T)
      → l.idx + n < length l.values
      → advance_by n l ≡ record { values = l.values; idx = l.idx + n }
  unfolding advance_by
  advance_by_lem zero l h = ap (λ i. record { values = l.values; idx = i }) (sym (plus_zero l.idx))
  advance_by_lem (suc n) l h =
      let one : advance l ≡ record { values = l.values; idx = suc l.idx } =
        advance-step l (omega (arith, h)) in
      rw one (
        advance_by_lem n (record { values = l.values; idx = suc l.idx }) (omega (arith, h))
        ∙ ap (λ i. record { values = l.values; idx = i }) (shift l.idx n))

  -- Replaying a loaded line: from its start and n advances on, offset 0 reads the value at n,
  -- whatever the cursor was before and as long as the line has more than n values.
  pub replay-at_offset :
      (n : ℕ) (l : Line T)
      → n < length l.values
      → at_offset (advance_by n (home l)) (pos 0) ≡ get_elem? l.values n
  unfolding home at_offset
  replay-at_offset n l h =
      rw (advance_by_lem n (record { values = l.values; idx = 0 }) (omega (arith, h)))
        (ap (λ i. get_elem? l.values i) (omega arith))
