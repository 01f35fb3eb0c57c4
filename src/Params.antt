-- ===== src/Params.antt =====
-- include/stratforge/core/params.hpp: the parameters of a strategy. A map of parameters is a list
-- without repeated keys, and an integer of 64 bits an integer.
pub mod Merged
use Prim.Native.String.{String}
use text.Mathlib.Text.{◌==◌ as str_eq}
use strat_forge.Common.{Bool, true, false, Option, none, some, List, [], ◌∷◌, if◌then◌else◌}
use strat_forge.Common.Int.{ℤ}
use strat_forge.Common.Throws.{Throws, returns, throws, ◌>>=◌}

pub data ParamValue (W : Type 0) : Type 0 where
  int64 : ℤ → ParamValue W
  double : W → ParamValue W
  bool : Bool → ParamValue W
  string : String → ParamValue W

abbrev pub ParamMap : Type 0 → Type 0
ParamMap W = List (String × ParamValue W)

-- A view is of a map, or of none.
abbrev pub ParamView : Type 0 → Type 0
ParamView W = Option (ParamMap W)

abbrev pub bad_variant_access : String
bad_variant_access = "bad_variant_access"

module _ {W : Type 0} where
  -- `m[key] = value`
  unfoldable pub assign : String → ParamValue W → ParamMap W → ParamMap W
  assign key value [] = (key, value) ∷ []
  assign key value ((k, v) ∷ m) =
      if str_eq k key then (k, value) ∷ m else (k, v) ∷ assign key value m

  unfoldable pub find : String → ParamMap W → Option (ParamValue W)
  find key [] = none
  find key ((k, v) ∷ m) = if str_eq k key then some v else find key m

  -- Assigns every override in turn.
  unfoldable pub merge_params : ParamMap W → ParamMap W → ParamMap W
  unfolding assign
  merge_params defaults [] = defaults
  merge_params defaults ((key, value) ∷ overrides) =
      merge_params (assign key value defaults) overrides

  unfoldable pub empty : ParamView W → Bool
  empty none = true
  empty (some []) = true
  empty (some (x ∷ m)) = false

  unfoldable pub has : String → ParamView W → Bool
  unfolding find
  has key none = false
  has key (some m) = elim (find key m) [ none ↦ false | some v ↦ true ]

  unfoldable pub at : String → ParamView W → Throws (ParamValue W)
  unfolding find
  at key none = throws "parameter map is empty"
  at key (some m) = elim (find key m) [ none ↦ throws "out_of_range" | some v ↦ returns v ]

  -- `get` by the type that is asked for. An integral type other than 64 bits is cut to size by the
  -- caller.
  unfoldable pub get_string : String → ParamView W → Throws String
  unfolding at
  get_string key view = at key view >>= λ value. elim value [
    | ParamValue.string s ↦ returns s
    | _ ↦ throws bad_variant_access
  ]

  unfoldable pub get_bool : String → ParamView W → Throws Bool
  unfolding at
  get_bool key view = at key view >>= λ value. elim value [
    | ParamValue.bool b ↦ returns b
    | _ ↦ throws bad_variant_access
  ]

  unfoldable pub get_integral : String → ParamView W → Throws ℤ
  unfolding at
  get_integral key view = at key view >>= λ value. elim value [
    | ParamValue.int64 i ↦ returns i
    | _ ↦ throws bad_variant_access
  ]

  -- `rounded` is the conversion of an integer to a double.
  unfoldable pub get_floating : (ℤ → W) → String → ParamView W → Throws W
  unfolding at
  get_floating rounded key view = at key view >>= λ value. elim value [
    | ParamValue.double x ↦ returns x
    | ParamValue.int64 i ↦ returns (rounded i)
    | _ ↦ throws bad_variant_access
  ]
