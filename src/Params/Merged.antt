-- ===== src/Params/Merged.antt =====
-- What a look-up finds in merged parameters.
use Prim.Native.String.{String}
use text.Mathlib.Text.{◌==◌ as str_eq}
use text.Mathlib.TextEquality.{eq_iff}
use strat_forge.Common.{
  true, false, Option, none, some, [], ◌∷◌, ◌≡◌, refl, ap, subst, ◌∙◌, Bool-cases, inl, inr,
  if◌then◌else◌,
}
use strat_forge.Params.{ParamValue, ParamMap, assign, find, merge_params}

pub str_eq_refl : (s : String) → str_eq s s ≡ true
str_eq_refl s = (eq_iff s s).1 refl

module _ {W : Type 0} where
  -- No key is there twice.
  abbrev pub IsMap : ParamMap W → Type 0
  IsMap [] = Unit
  IsMap ((k, v) ∷ m) = (find k m ≡ none) × IsMap m

  abbrev pub or_else : Option (ParamValue W) → Option (ParamValue W) → Option (ParamValue W)
  or_else none b = b
  or_else (some v) b = some v

  pub find-assign_same :
      (key : String) (value : ParamValue W) (m : ParamMap W)
      → find key (assign key value m) ≡ some value
  unfolding find assign
  find-assign_same key value [] = rw (str_eq_refl key) refl
  find-assign_same key value ((k, v) ∷ m) = elim (Bool-cases (str_eq k key)) [
    | inl hit ↦ rw (hit, hit) refl
    | inr miss ↦ rw (miss, miss) (find-assign_same key value m)
  ]

  pub find-assign_other :
      (key other : String) (value : ParamValue W) (m : ParamMap W)
      → str_eq key other ≡ false
      → find other (assign key value m) ≡ find other m
  unfolding find assign
  find-assign_other key other value [] h = rw h refl
  find-assign_other key other value ((k, v) ∷ m) h = elim (Bool-cases (str_eq k key)) [
    | inl hit ↦
        let same : k ≡ key = (eq_iff k key).0 hit in
        let miss : str_eq k other ≡ false = rw same h in rw (hit, miss) refl
    | inr miss ↦
        rw miss
          (ap (λ r. if str_eq k other then some v else r) (find-assign_other key other value m h))
  ]

  -- With overrides that repeat no key: a look-up in merged parameters finds the override of its key,
  -- and without one the default.
  pub find-merge_params :
      (key : String) (defaults overrides : ParamMap W)
      → IsMap overrides
      → find key (merge_params defaults overrides)
        ≡ or_else (find key overrides) (find key defaults)
  unfolding find merge_params
  find-merge_params key defaults [] h = refl
  find-merge_params key defaults ((k, v) ∷ m) h = elim (Bool-cases (str_eq k key)) [
    | inl hit ↦
        let same : k ≡ key = (eq_iff k key).0 hit in
        let none_later : find key m ≡ none = subst (λ x. find x m ≡ none) same h.0 in
        let found : find key (assign k v defaults) ≡ some v =
          subst (λ x. find x (assign k v defaults) ≡ some v) same (find-assign_same k v defaults) in
        rw hit (find-merge_params key (assign k v defaults) m h.1 ∙ rw (none_later, found) refl)
    | inr miss ↦ rw miss (
        find-merge_params key (assign k v defaults) m h.1
        ∙ ap (or_else (find key m)) (find-assign_other k key v defaults miss))
  ]
