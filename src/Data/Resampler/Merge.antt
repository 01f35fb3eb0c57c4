-- ===== src/Data/Resampler/Merge.antt =====
-- What resampling keeps: the shape of a bar, the traded volume, and a bar for each run of a bucket.
use strat_forge.Common.{
  ℕ, suc, List, [], ◌∷◌, ◌≡◌, refl, ap, ◌∙◌, All, Bool-cases, inl, inr, if◌then◌else◌, length,
}
use strat_forge.Common.Int.{ℤ, eqb_ℤ}
use strat_forge.Double.{Double, ◌⊕◌, ◌≼◌, nought, fmin, fmax, IsOrdered, IsExact}
use strat_forge.Double.Order.{le_fmax_left, le_fmax_right, fmin_le_left, fmin_le_right}
use strat_forge.Double.Ring.{zero_add}
use strat_forge.Data.Resampler.{
  Bar, Clock, Target, Merged, begin, merge, get_bucket, resample_from, resample,
}

module _ {W : Type 0} where
  -- How often the bucket changes along the bars, from a bucket on.
  unfoldable pub changes : Clock → Target → ℤ → List (Bar W) → ℕ
  changes c t bucket [] = 0
  changes c t bucket (b ∷ bs) =
      let rest = changes c t (get_bucket c t b.datetime) bs in
      if eqb_ℤ (get_bucket c t b.datetime) bucket then rest else suc rest

module _ {W : Type 0} ⦃d : Double W⦄ where
  -- Open and close lie between low and high.
  abbrev pub IsSane : Bar W → Type 0
  IsSane b =
      ((b.low ≼ b.open_price) × (b.open_price ≼ b.high)) × ((b.low ≼ b.close) × (b.close ≼ b.high))

  abbrev MergedSane : Merged W → Type 0
  MergedSane m = ((m.l ≼ m.o) × (m.o ≼ m.h)) × ((m.l ≼ m.c) × (m.c ≼ m.h))

  module _ (laws : IsOrdered W) where
    open laws use {le_trans}

    merge-MergedSane :
        (m : Merged W) (bar : Bar W) (bucket : ℤ)
        → MergedSane m
        → IsSane bar
        → MergedSane (merge m bar bucket)
    unfolding merge
    merge-MergedSane m bar bucket h k = (
      (
        le_trans (fmin m.l bar.low) m.l m.o (fmin_le_left laws m.l bar.low) h.0.0,
        le_trans m.o m.h (fmax m.h bar.high) h.0.1 (le_fmax_left laws m.h bar.high),
      ),
      (
        le_trans (fmin m.l bar.low) bar.low bar.close (fmin_le_right laws m.l bar.low) k.1.0,
        le_trans bar.close bar.high (fmax m.h bar.high) k.1.1 (le_fmax_right laws m.h bar.high),
      ),
    )

    resample_from-IsSane :
        (c : Clock) (t : Target) (m : Merged W) (bars : List (Bar W))
        → MergedSane m
        → All IsSane bars
        → All IsSane (resample_from c t m bars)
    unfolding resample_from
    resample_from-IsSane c t m [] h k = (h, tt)
    resample_from-IsSane c t m (bar ∷ bars) h k =
        let bucket = get_bucket c t bar.datetime in
        elim (Bool-cases (eqb_ℤ bucket m.current_bucket)) [
          | inl same ↦ rw same (
              resample_from-IsSane c t (merge m bar bucket) bars
                (merge-MergedSane m bar bucket h k.0) k.1)
          | inr other ↦
              rw other (h, resample_from-IsSane c t (begin bar bucket bar.volume) bars k.0 k.1)
        ]

    -- For doubles in order: when the open and the close of every source bar lie between its low and
    -- its high, so they do in every resampled bar, for any time frame and compression.
    pub resample-IsSane :
        (c : Clock) (t : Target) (bars : List (Bar W))
        → All IsSane bars
        → All IsSane (resample c t bars)
    unfolding resample
    resample-IsSane c t [] h = tt
    resample-IsSane c t (bar ∷ bars) h =
        resample_from-IsSane c t (begin bar (get_bucket c t bar.datetime) (nought ⊕ bar.volume))
          bars h.0 h.1

  unfoldable pub traded : List (Bar W) → W
  traded [] = nought
  traded (b ∷ bs) = b.volume ⊕ traded bs

  module _ (exact : IsExact W) where
    open exact use {add_assoc}

    resample_from-traded :
        (c : Clock) (t : Target) (m : Merged W) (bars : List (Bar W))
        → traded (resample_from c t m bars) ≡ m.v ⊕ traded bars
    unfolding resample_from traded merge
    resample_from-traded c t m [] = refl
    resample_from-traded c t m (bar ∷ bars) =
        let bucket = get_bucket c t bar.datetime in
        elim (Bool-cases (eqb_ℤ bucket m.current_bucket)) [
          | inl same ↦ rw same (
              resample_from-traded c t (merge m bar bucket) bars
              ∙ add_assoc m.v bar.volume (traded bars))
          | inr other ↦
              rw other
                (ap (λ z. m.v ⊕ z) (resample_from-traded c t (begin bar bucket bar.volume) bars))
        ]

    -- In exact arithmetic the resampled bars have the same volume in total as the source bars.
    pub traded-resample :
        (c : Clock) (t : Target) (bars : List (Bar W)) → traded (resample c t bars) ≡ traded bars
    unfolding resample traded
    traded-resample c t [] = refl
    traded-resample c t (bar ∷ bars) =
        resample_from-traded c t (begin bar (get_bucket c t bar.datetime) (nought ⊕ bar.volume))
          bars
        ∙ ap (λ z. z ⊕ traded bars) (zero_add exact bar.volume)

  length-resample_from :
      (c : Clock) (t : Target) (m : Merged W) (bars : List (Bar W))
      → length (resample_from c t m bars) ≡ suc (changes c t m.current_bucket bars)
  unfolding resample_from changes merge
  length-resample_from c t m [] = refl
  length-resample_from c t m (bar ∷ bars) =
      let bucket = get_bucket c t bar.datetime in
      elim (Bool-cases (eqb_ℤ bucket m.current_bucket)) [
        | inl same ↦ rw same (length-resample_from c t (merge m bar bucket) bars)
        | inr other ↦
            rw other (ap suc (length-resample_from c t (begin bar bucket bar.volume) bars))
      ]

  -- A source with bars gives one bar more than its bucket changes.
  pub length-resample :
      (c : Clock) (t : Target) (bar : Bar W) (bars : List (Bar W))
      → length (resample c t (bar ∷ bars)) ≡ suc (changes c t (get_bucket c t bar.datetime) bars)
  unfolding resample
  length-resample c t bar bars =
      length-resample_from c t (begin bar (get_bucket c t bar.datetime) (nought ⊕ bar.volume)) bars
