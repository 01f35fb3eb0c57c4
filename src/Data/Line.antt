-- ===== src/Data/Line.antt =====
-- include/stratforge/core/line.hpp: a column of values with a cursor, read by offsets from it.
pub mod Cursor
use strat_forge.Common.{
  ℕ, zero, suc, ◌+◌, ◌-◌, Bool, true, false, Option, none, some, List, [], ◌∷◌, ◌++◌, ◌==◌,
  if◌then◌else◌, ltb, length, get_elem?, set,
}
use strat_forge.Common.Int.{ℤ, pos, negsuc}

pub record Line {ℓ} (T : Type ℓ) : Type ℓ where
  pub values : List T
  pub idx : ℕ

module _ {ℓ} {T : Type ℓ} where
  unfoldable pub new_line : Line T
  new_line = record { values = []; idx = 0 }

  unfoldable pub forward : T → Line T → Line T
  forward value l =
      let values' = l.values ++ (value ∷ []) in
      record { values = values'; idx = length values' - 1 }

  -- `set`, which appends where the cursor is past the end.
  unfoldable pub set_current : T → Line T → Line T
  set_current value l =
      if ltb l.idx (length l.values)
      then record l { values = set l.values l.idx value }
      else record l { values = l.values ++ (value ∷ []) }

  unfoldable pub advance : Line T → Line T
  advance l = if ltb (l.idx + 1) (length l.values) then record l { idx = suc l.idx } else l

  unfoldable pub home : Line T → Line T
  home l = record l { idx = 0 }

  unfoldable pub copies : ℕ → T → List T
  copies zero value = []
  copies (suc n) value = value ∷ copies n value

  unfoldable pub extend : ℕ → T → Line T → Line T
  unfolding copies
  extend n value l = record l { values = l.values ++ copies n value }

  -- `operator[]`; none is the exception `out_of_range`.
  unfoldable pub at_offset : Line T → ℤ → Option T
  at_offset l (pos k) = get_elem? l.values (l.idx + k)
  at_offset l (negsuc k) = if ltb k l.idx then get_elem? l.values (l.idx - suc k) else none

  unfoldable pub size : Line T → ℕ
  size l = length l.values

  unfoldable pub is_empty : Line T → Bool
  is_empty l = length l.values == 0

  unfoldable pub buflen : Line T → ℕ
  unfolding is_empty
  buflen l = if is_empty l then 0 else length l.values - l.idx

-- The members that change a line.
pub data Call {ℓ} (T : Type ℓ) : Type ℓ where
  forwards sets : T → Call T
  advances homes : Call T
  extends : ℕ → T → Call T

module _ {ℓ} {T : Type ℓ} where
  unfoldable pub call : Call T → Line T → Line T
  unfolding forward set_current advance home extend
  call (Call.forwards value) l = forward value l
  call (Call.sets value) l = set_current value l
  call Call.advances l = advance l
  call Call.homes l = home l
  call (Call.extends n value) l = extend n value l

  unfoldable pub calls : List (Call T) → Line T → Line T
  unfolding call
  calls [] l = l
  calls (c ∷ cs) l = calls cs (call c l)

  -- `forward` for each value in turn.
  unfoldable pub forward_all : List T → Line T → Line T
  unfolding forward
  forward_all [] l = l
  forward_all (v ∷ vs) l = forward_all vs (forward v l)

  unfoldable pub advance_by : ℕ → Line T → Line T
  unfolding advance
  advance_by zero l = l
  advance_by (suc n) l = advance_by n (advance l)
