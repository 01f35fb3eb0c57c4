-- ===== src/Engine/Optimizer/Grid.antt =====
-- The grid against the textbook product of the ranges.
use strat_forge.Common.{List, [], ◌∷◌, ◌++◌, map, ◌≡◌, refl, sym, ap, ap₂, ◌∙◌}
use mathlib.Core.List.{append_assoc, map-append}
use strat_forge.Params.{ParamValue, ParamMap, assign}
use strat_forge.Engine.Optimizer.{ParamRange, extensions, cross, cross_all, generate_param_grid}

module _ {W : Type 0} where
  abbrev pub each_with :
      List (ParamValue W) → List (List (ParamValue W)) → List (List (ParamValue W))
  each_with [] picks = []
  each_with (v ∷ vs) picks = map (λ pick. v ∷ pick) picks ++ each_with vs picks

  -- Every way to pick a value from each range, the last range's value changing first.
  abbrev pub choices : List (ParamRange W) → List (List (ParamValue W))
  choices [] = [] ∷ []
  choices (r ∷ rs) = each_with r.values (choices rs)

  -- Assigns the picked values to the ranges' names, from the first on.
  abbrev pub assign_all : ParamMap W → List (ParamRange W) → List (ParamValue W) → ParamMap W
  assign_all m [] vs = m
  assign_all m (r ∷ rs) [] = m
  assign_all m (r ∷ rs) (v ∷ vs) = assign_all (assign r.name v m) rs vs

  -- The grid over an entry, and over a list of them.
  abbrev pub over : List (ParamRange W) → ParamMap W → List (ParamMap W)
  over rs m = map (assign_all m rs) (choices rs)

  abbrev pub over_each : List (ParamRange W) → List (ParamMap W) → List (ParamMap W)
  over_each rs [] = []
  over_each rs (m ∷ grid) = over rs m ++ over_each rs grid

  over_each-append :
      (rs : List (ParamRange W)) (xs ys : List (ParamMap W))
      → over_each rs (xs ++ ys) ≡ over_each rs xs ++ over_each rs ys
  over_each-append rs [] ys = refl
  over_each-append rs (m ∷ xs) ys =
      ap (λ x. over rs m ++ x) (over_each-append rs xs ys)
      ∙ sym (append_assoc (over rs m) (over_each rs xs) (over_each rs ys))

  map-prefixed :
      (m : ParamMap W) (r : ParamRange W) (rs : List (ParamRange W)) (v : ParamValue W)
      (picks : List (List (ParamValue W)))
      → map (assign_all m (r ∷ rs)) (map (λ pick. v ∷ pick) picks)
        ≡ map (assign_all (assign r.name v m) rs) picks
  map-prefixed m r rs v [] = refl
  map-prefixed m r rs v (pick ∷ picks) =
      ap (λ x. assign_all (assign r.name v m) rs pick ∷ x) (map-prefixed m r rs v picks)

  map-each_with :
      (m : ParamMap W) (r : ParamRange W) (rs : List (ParamRange W)) (vs : List (ParamValue W))
      → map (assign_all m (r ∷ rs)) (each_with vs (choices rs))
        ≡ over_each rs (map (λ v. assign r.name v m) vs)
  map-each_with m r rs [] = refl
  map-each_with m r rs (v ∷ vs) =
      map-append (assign_all m (r ∷ rs)) (map (λ pick. v ∷ pick) (choices rs)) _
      ∙ ap₂ ◌++◌ (map-prefixed m r rs v (choices rs)) (map-each_with m r rs vs)

  over_each-cross :
      (r : ParamRange W) (rs : List (ParamRange W)) (grid : List (ParamMap W))
      → over_each rs (cross r grid) ≡ over_each (r ∷ rs) grid
  unfolding cross extensions
  over_each-cross r rs [] = refl
  over_each-cross r rs (m ∷ grid) =
      over_each-append rs (extensions r m) (cross r grid)
      ∙ ap₂ ◌++◌ (sym (map-each_with m r rs r.values)) (over_each-cross r rs grid)

  over_each_nil : (grid : List (ParamMap W)) → over_each [] grid ≡ grid
  over_each_nil [] = refl
  over_each_nil (m ∷ grid) = ap (λ x. m ∷ x) (over_each_nil grid)

  cross_all-over_each :
      (rs : List (ParamRange W)) (grid : List (ParamMap W)) → cross_all rs grid ≡ over_each rs grid
  unfolding cross_all
  cross_all-over_each [] grid = sym (over_each_nil grid)
  cross_all-over_each (r ∷ rs) grid =
      cross_all-over_each rs (cross r grid) ∙ over_each-cross r rs grid

  -- With at least one range, the grid has one entry for every way to pick a value from each range, in
  -- the order of the ranges, and the entry assigns the picked values to the ranges' names.
  pub generate_param_grid-choices :
      (r : ParamRange W) (rs : List (ParamRange W))
      → generate_param_grid (r ∷ rs) ≡ map (assign_all [] (r ∷ rs)) (choices (r ∷ rs))
  unfolding generate_param_grid extensions
  generate_param_grid-choices r rs =
      cross_all-over_each rs (extensions r []) ∙ sym (map-each_with [] r rs r.values)
