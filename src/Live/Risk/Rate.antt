-- ===== src/Live/Risk/Rate.antt =====
-- The rate limit: in any second, no more orders pass than the limit says.
use strat_forge.Common.{
  ℕ, zero, suc, ◌+◌, ◌<◌, Bool, true, false, Option, none, some, List, [], ◌∷◌, ◌++◌, ◌≡◌, refl, ap,
  sym, subst, ◌∙◌, ◌⊎◌, inl, inr, arith, if◌then◌else◌, leb, ltb, length, length-append, get_elem?,
  All, All-append, All-imp, Bool-cases,
}
use mathlib.Core.List.{append_assoc, append-nil}
use strat_forge.Common.Int.{ℤ, pos, ◌-ℤ◌, ltb_ℤ, leb_ℤ, -ℤ_parts}
use strat_forge.Common.Writes.{get_elem?-below, All-get_elem?}
use strat_forge.Double.{Double}
use strat_forge.Live.Risk.{LiveEngine, purge, check_within, check_order_rate}
use strat_forge.Live.Risk.Kept.{if_true, if_false}

-- More than a second lies between the times.
abbrev pub IsStale : ℕ → ℤ → ℤ → Type 0
IsStale per_second now t = ltb_ℤ (pos per_second) (now -ℤ t) ≡ true

-- The times never fall, from the first one on.
abbrev pub Rising : ℤ → List ℤ → Type 0
Rising last [] = Unit
Rising last (t ∷ ts) = (leb_ℤ last t ≡ true) × Rising t ts

-- Of any `max` + 1 in a row, the last is more than a second after the first.
abbrev pub IsPaced : ℕ → ℕ → List ℤ → Type 0
IsPaced per_second max xs =
    (i : ℕ) (a b : ℤ)
    → get_elem? xs i ≡ some a
    → get_elem? xs (i + max) ≡ some b
    → IsStale per_second b a

IsStale-later :
    (per_second : ℕ) (last now t : ℤ)
    → leb_ℤ last now ≡ true
    → IsStale per_second last t
    → IsStale per_second now t
IsStale-later per_second last now t h k = ground (arith, -ℤ_parts now t, -ℤ_parts last t, h, k)

-- What `purge` drops is stale, and the rest stays in its order.
purge-split :
    (per_second : ℕ) (now : ℤ) (ts : List ℤ)
    → (dropped : List ℤ) × (ts ≡ dropped ++ purge per_second now ts)
      × All (IsStale per_second now) dropped
unfolding purge
purge-split per_second now [] = ([], refl, tt)
purge-split per_second now (t ∷ ts) =
    let (dropped, parts, stale) = purge-split per_second now ts in
    elim (Bool-cases (ltb_ℤ (pos per_second) (now -ℤ t))) [
      | inl old ↦ rw old (t ∷ dropped, ap (λ r. t ∷ r) parts, (old, stale))
      | inr fresh ↦ rw fresh ([], refl, tt)
    ]

get_elem?-left : (xs ys : List ℤ) (i : ℕ) → i < length xs → get_elem? (xs ++ ys) i ≡ get_elem? xs i
get_elem?-left [] ys i h = absurd (ground (arith, h))
get_elem?-left (x ∷ xs) ys zero h = refl
get_elem?-left (x ∷ xs) ys (suc i) h = get_elem?-left xs ys i (omega (arith, h))

get_elem?-last : (xs : List ℤ) (y : ℤ) → get_elem? (xs ++ (y ∷ [])) (length xs) ≡ some y
get_elem?-last [] y = refl
get_elem?-last (x ∷ xs) y = get_elem?-last xs y

-- One more time is paced, if fewer than `max` of the earlier ones are not stale at it.
IsPaced-snoc :
    (per_second max : ℕ) (old recent : List ℤ) (now : ℤ)
    → IsPaced per_second max (old ++ recent)
    → All (IsStale per_second now) old
    → length recent < max
    → IsPaced per_second max ((old ++ recent) ++ (now ∷ []))
IsPaced-snoc per_second max old recent now paced stale few i a b h k =
    let xs = old ++ recent in
    let all_of = length-append xs (now ∷ []) in
    let parts = length-append old recent in
    let inside = get_elem?-below (xs ++ (now ∷ [])) (i + max) b k in
    elim (Bool-cases (ltb (i + max) (length xs))) [
      | inl before ↦
          paced i a b (sym (get_elem?-left xs (now ∷ []) i (ground (arith, before))) ∙ h)
            (sym (get_elem?-left xs (now ∷ []) (i + max) (ground (arith, before))) ∙ k)
      | inr at_end ↦
          let here : i + max ≡ length xs = ground (arith, at_end, inside, all_of) in
          let early : i < length old = omega (arith, here, parts, few) in
          let is_now : some now ≡ some b =
            sym (get_elem?-last xs now) ∙ (ap (get_elem? (xs ++ (now ∷ []))) (sym here) ∙ k) in
          let same : now ≡ b = cc is_now in
          let in_old : get_elem? old i ≡ some a =
            sym (get_elem?-left old recent i early)
            ∙ (sym (get_elem?-left xs (now ∷ []) i (omega (arith, early, parts))) ∙ h) in
          subst (λ t. IsStale per_second t a) same
            (All-get_elem? (IsStale per_second now) old i a stale in_old)
    ]

module _ {S W : Type 0} ⦃d : Double W⦄ (per_second : ℕ) where
  abbrev pub stamped : ℤ → LiveEngine S W → LiveEngine S W
  unfolding purge
  stamped now e = record e {
    order_timestamps = purge per_second now e.order_timestamps ++ (now ∷ []);
  }

  within-cases :
      (max : ℕ) (now : ℤ) (limit : Option ℕ) (e : LiveEngine S W)
      → limit ≡ some max
      → e.kill_switch_triggered ≡ false
      → ((check_within per_second now limit e).0 ≡ false)
        ⊎ ((length (purge per_second now e.order_timestamps) < max)
            × (check_within per_second now limit e ≡ (true, stamped now e)))
  unfolding check_within stamped
  within-cases max now none e h k = absurd (cc h)
  within-cases max now (some m) e h k =
      let same : m ≡ max = cc h in
      let few = leb m (length (purge per_second now e.order_timestamps)) in
      elim (Bool-cases few) [
        | inl full ↦ inl (
            ap (λ (r : Bool × LiveEngine S W). r.0)
              (if_false e.kill_switch_triggered _ _ k ∙ if_true few (false, _) _ full))
        | inr free ↦ inr (
          ground (arith, free, same),
          if_false e.kill_switch_triggered _ _ k ∙ if_false few _ _ free,
        )
      ]

  -- The times at which an order passes, of orders at the given times, until one does not.
  abbrev pub passing : List ℤ → LiveEngine S W → List ℤ
  passing [] e = []
  passing (t ∷ ts) e =
      let r = check_order_rate per_second t e in if r.0 then t ∷ passing ts r.1 else []

  passing_from :
      (max : ℕ) (old : List ℤ) (last : ℤ) (ts : List ℤ) (e : LiveEngine S W)
      → e.limits.max_orders_per_second ≡ some max
      → e.kill_switch_triggered ≡ false
      → All (IsStale per_second last) old
      → IsPaced per_second max (old ++ e.order_timestamps)
      → Rising last ts
      → IsPaced per_second max ((old ++ e.order_timestamps) ++ passing ts e)
  unfolding check_order_rate stamped
  passing_from max old last [] e l k stale paced r =
      subst (IsPaced per_second max) (sym (append-nil (old ++ e.order_timestamps))) paced
  passing_from max old last (t ∷ ts) e l k stale paced r =
      elim (within-cases max t e.limits.max_orders_per_second e l k) [
        | inl refused ↦
            subst (λ x. IsPaced per_second max ((old ++ e.order_timestamps) ++ x))
              (sym (if_false (check_order_rate per_second t e).0 _ [] refused))
              (subst (IsPaced per_second max) (sym (append-nil (old ++ e.order_timestamps))) paced)
        | inr (few, passed) ↦
            let recent = purge per_second t e.order_timestamps in
            let (dropped, parts, stale_now) = purge-split per_second t e.order_timestamps in
            let later = passing ts (stamped t e) in
            let e1 : old ++ e.order_timestamps ≡ (old ++ dropped) ++ recent =
              ap (λ x. old ++ x) parts ∙ sym (append_assoc old dropped recent) in
            let e2 : ((old ++ dropped) ++ recent) ++ (t ∷ [])
                ≡ (old ++ dropped) ++ (recent ++ (t ∷ [])) =
              append_assoc (old ++ dropped) recent (t ∷ []) in
            let all_stale : All (IsStale per_second t) (old ++ dropped) =
              All-append (IsStale per_second t) old dropped
                (All-imp old (λ x q. IsStale-later per_second last t x r.0 q) stale) stale_now in
            let paced_now =
              IsPaced-snoc per_second max (old ++ dropped) recent t
                (subst (IsPaced per_second max) e1 paced) all_stale few in
            let rest =
              passing_from max (old ++ dropped) t ts (stamped t e) l k all_stale
                (subst (IsPaced per_second max) e2 paced_now) r.1 in
            let whole : (old ++ e.order_timestamps) ++ (t ∷ later)
                ≡ ((old ++ dropped) ++ (recent ++ (t ∷ []))) ++ later =
              sym (append_assoc (old ++ e.order_timestamps) (t ∷ []) later)
              ∙ ap (λ x. x ++ later) (ap (λ x. x ++ (t ∷ [])) e1 ∙ e2) in
            subst
              (λ x.
                IsPaced per_second max
                  ((old ++ e.order_timestamps) ++ (if x.0 then t ∷ passing ts x.1 else [])))
              (sym passed) (subst (IsPaced per_second max) (sym whole) rest)
      ]

  -- With a limit on the rate of orders, the kill switch off and no order before: of orders at times
  -- that never fall, those that pass before the limit is hit are no more than the limit in any second.
  pub passing-IsPaced :
      (max : ℕ) (t : ℤ) (ts : List ℤ) (e : LiveEngine S W)
      → e.limits.max_orders_per_second ≡ some max
      → e.kill_switch_triggered ≡ false
      → e.order_timestamps ≡ []
      → Rising t ts
      → IsPaced per_second max (passing ts e)
  passing-IsPaced max t ts e l k none_before r =
      subst (λ x. IsPaced per_second max (x ++ passing ts e)) none_before
        (passing_from max [] t ts e l k tt
          (λ i a b h j. absurd (nothing i a (subst (λ x. get_elem? x i ≡ some a) none_before h))) r)
    where
      nothing : (i : ℕ) (a : ℤ) → get_elem? [] i ≡ some a → ⊥
      nothing i a h = cc h
