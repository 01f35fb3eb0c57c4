-- ===== src/Observers/Batcher/Streams.antt =====
-- A kind of item that the batcher passes on: what waits and what is flushed make up what was shown.
use strat_forge.Common.{
  Bool, true, false, List, [], ◌∷◌, ◌++◌, ◌≡◌, refl, sym, ap, ap₂, ◌∙◌, Bool-cases, inl, inr,
}
use mathlib.Core.List.{append_assoc, append-nil}
use strat_forge.Common.Int.{ℤ}
use strat_forge.Double.{Double}
use strat_forge.Broker.State.{Broker}
use strat_forge.Broker.Trade.{Trade}
use strat_forge.Engine.Clock.{Clocked}
use strat_forge.Observers.Increment.{IncrementSnapshot}
use strat_forge.Observers.Batcher.{
  IncrementBatcher, Signal, signal, signals, emit, snapshot_of, maybe_flush, flushes, record_bar,
  next, notify_trade, stop,
}

module _ {W A : Type 0} where
  -- The flushed parts, one after another.
  abbrev pub joined : (IncrementSnapshot W → List A) → List (IncrementSnapshot W) → List A
  joined out [] = []
  joined out (x ∷ xs) = out x ++ joined out xs

  joined-append :
      (out : IncrementSnapshot W → List A) (xs ys : List (IncrementSnapshot W))
      → joined out (xs ++ ys) ≡ joined out xs ++ joined out ys
  joined-append out [] ys = refl
  joined-append out (x ∷ xs) ys =
      ap (λ r. out x ++ r) (joined-append out xs ys)
      ∙ sym (append_assoc (out x) (joined out xs) (joined out ys))

module _ {W : Type 0} ⦃d : Double W⦄ where
  pub emit_flushed :
      (final : Bool) (s : IncrementBatcher W)
      → (emit final s).flushed ≡ s.flushed ++ (snapshot_of final s ∷ [])
  unfolding emit
  emit_flushed final s = refl

module _ {W A : Type 0} ⦃d : Double W⦄ (seen : Signal W → List A) where
  abbrev pub all_seen : List (Signal W) → List A
  all_seen [] = []
  all_seen (x ∷ xs) = seen x ++ all_seen xs

module _ {W A : Type 0} ⦃d : Double W⦄ (out : IncrementSnapshot W → List A)
    (pend : IncrementBatcher W → List A) (seen : Signal W → List A) where
  -- A kind of item: `pend` has those that wait, a flush moves them into `out` of its snapshot, and a
  -- call adds what it shows.
  pub record IsStream : Type 0 where
    pub moves : (final : Bool) (s : IncrementBatcher W) → out (snapshot_of final s) ≡ pend s
    pub empties : (final : Bool) (s : IncrementBatcher W) → pend (emit final s) ≡ []
    pub keeps :
        (now : ℤ) (s : IncrementBatcher W) → pend (record s { last_flush_at = now }) ≡ pend s
    pub starts : (now : ℤ) → seen (Signal.starts now) ≡ []
    pub stops : seen Signal.stops ≡ []
    pub records :
        (b : Broker W) (fs : List (Clocked W)) (now : ℤ) (s : IncrementBatcher W)
        → pend (record_bar b fs s) ≡ pend s ++ seen (Signal.nexts b fs now)
    pub trades :
        (t : Trade W) (s : IncrementBatcher W)
        → pend (notify_trade t s) ≡ pend s ++ seen (Signal.trades t)

  abbrev pub passed : IncrementBatcher W → List A
  passed s = joined out s.flushed ++ pend s

  emit-passed :
      IsStream → (final : Bool) (s : IncrementBatcher W) → passed (emit final s) ≡ passed s
  emit-passed st final s =
      let snap = snapshot_of final s in
      ap₂ (λ f p. joined out f ++ p) (emit_flushed final s) (st.empties final s)
      ∙ (append-nil (joined out (s.flushed ++ (snap ∷ [])))
          ∙ (joined-append out s.flushed (snap ∷ [])
              ∙ ap (λ r. joined out s.flushed ++ r) (append-nil (out snap) ∙ st.moves final s)))

  maybe_flush-passed :
      IsStream
      → (force : Bool) (now : ℤ) (s : IncrementBatcher W)
      → passed (maybe_flush force now s) ≡ passed s
  unfolding maybe_flush
  maybe_flush-passed st force now s = elim (Bool-cases (flushes force now s)) [
    | inl yes_now ↦ rw yes_now (
        ap (λ r. joined out (emit false s).flushed ++ r) (st.keeps now (emit false s))
        ∙ emit-passed st false s)
    | inr not_yet ↦ rw not_yet refl
  ]

  longer :
      (s s' : IncrementBatcher W) (xs : List A)
      → s'.flushed ≡ s.flushed
      → pend s' ≡ pend s ++ xs
      → passed s' ≡ passed s ++ xs
  longer s s' xs e h =
      ap₂ (λ f p. joined out f ++ p) e h ∙ sym (append_assoc (joined out s.flushed) (pend s) xs)

  signal-passed :
      IsStream → (x : Signal W) (s : IncrementBatcher W) → passed (signal x s) ≡ passed s ++ seen x
  unfolding signal next stop record_bar notify_trade
  signal-passed st (Signal.starts now) s =
      longer s (record s { last_flush_at = now }) (seen (Signal.starts now)) refl
        (st.keeps now s ∙ rw (st.starts now) (sym (append-nil (pend s))))
  signal-passed st (Signal.nexts b fs now) s =
      maybe_flush-passed st false now (record_bar b fs s)
      ∙ longer s (record_bar b fs s) (seen (Signal.nexts b fs now)) refl (st.records b fs now s)
  signal-passed st (Signal.trades t) s =
      longer s (notify_trade t s) (seen (Signal.trades t)) refl (st.trades t s)
  signal-passed st Signal.stops s =
      emit-passed st true s ∙ rw st.stops (sym (append-nil (passed s)))

  pub signals-passed :
      IsStream
      → (xs : List (Signal W)) (s : IncrementBatcher W)
      → passed (signals xs s) ≡ passed s ++ all_seen seen xs
  unfolding signals
  signals-passed st [] s = sym (append-nil (passed s))
  signals-passed st (x ∷ xs) s =
      signals-passed st xs (signal x s)
      ∙ (ap (λ r. r ++ all_seen seen xs) (signal-passed st x s)
          ∙ append_assoc (passed s) (seen x) (all_seen seen xs))
