-- ===== src/Data/Interval/Vocabulary.antt =====
-- The interval vocabulary's two directions undo each other.
use Prim.Native.String.{String}
use text.Mathlib.Text.{◌==◌ as str_eq}
use text.Mathlib.TextEquality.{eq_iff}
use strat_forge.Common.{subst, true, false, List, [], ◌∷◌, ◌≡◌, arith, All, Bool-cases, inl, inr}
use strat_forge.Data.Interval.{
  TimeFrameCompression, IntervalToken, value, interval_vocabulary, parse_in, parse_interval,
  token_in, to_string, same_tfc,
}

-- No two entries have one timeframe.
abbrev IsDistinct : List IntervalToken → Type 0
IsDistinct [] = Unit
IsDistinct (e ∷ es) = All (λ x. same_tfc e.tfc x.tfc ≡ false) es × IsDistinct es

vocabulary-IsDistinct : IsDistinct interval_vocabulary
unfolding interval_vocabulary same_tfc
vocabulary-IsDistinct = ground arith

same_tfc_refl : (t : TimeFrameCompression) → same_tfc t t ≡ true
unfolding same_tfc
same_tfc_refl t = ground arith

parse_in-All :
    (P : TimeFrameCompression → Type 0) (es : List IntervalToken) (s : String)
    (t : TimeFrameCompression)
    → All (λ e. P e.tfc) es
    → parse_in es s ≡ value t
    → P t
unfolding parse_in
parse_in-All P [] s t h p = cc p
parse_in-All P (e ∷ es) s t h p = elim (Bool-cases (str_eq e.token s)) [
  | inl hit ↦ let e' : e.tfc ≡ t = cc (rw hit at p) in subst P e' h.0
  | inr miss ↦ parse_in-All P es s t h.1 (rw miss at p)
]

token-parse_in :
    (es : List IntervalToken) (s : String) (t : TimeFrameCompression)
    → IsDistinct es
    → parse_in es s ≡ value t
    → token_in es t ≡ s
unfolding parse_in token_in
token-parse_in [] s t d p = cc p
token-parse_in (e ∷ es) s t d p = elim (Bool-cases (str_eq e.token s)) [
  | inl hit ↦
      let same : e.tfc ≡ t = cc (rw hit at p) in
      rw (← same, same_tfc_refl e.tfc) ((eq_iff e.token s).0 hit)
  | inr miss ↦
      let p' : parse_in es s ≡ value t = rw miss at p in
      rw (parse_in-All (λ x. same_tfc e.tfc x ≡ false) es s t d.0 p') (token-parse_in es s t d.1 p')
]

-- The timeframe that a token names prints as that token.
pub to_string-parse :
    (token : String) (tfc : TimeFrameCompression)
    → parse_interval token ≡ value tfc
    → to_string tfc ≡ token
unfolding parse_interval to_string
to_string-parse token tfc p = token-parse_in interval_vocabulary token tfc vocabulary-IsDistinct p
