-- ===== src/Examples/Lines.antt =====
-- A line that is filled and replayed.
use strat_forge.Common.{ℕ, List, [], ◌∷◌, ◌≡◌, arith, get_elem?}
use strat_forge.Common.Int.{pos}
use strat_forge.Data.Line.{Line, Call, at_offset, advance_by, home}
use strat_forge.Data.Line.Cursor.{replay-at_offset}

-- Three closes, with the cursor on the last.
abbrev closes : Line ℕ
closes = record { values = 10 ∷ 11 ∷ 12 ∷ []; idx = 2 }

abbrev loading : List (Call ℕ)
loading = Call.homes ∷ Call.forwards 10 ∷ Call.advances ∷ Call.extends 2 0 ∷ []

replay-at_offset_example :
    at_offset (advance_by 1 (home closes)) (pos 0) ≡ get_elem? (10 ∷ 11 ∷ 12 ∷ []) 1
replay-at_offset_example = replay-at_offset 1 closes (omega arith)
