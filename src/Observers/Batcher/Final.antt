-- ===== src/Observers/Batcher/Final.antt =====
-- The batcher numbers its snapshots, keeps a batch within its bound, and ends with one final snapshot.
use strat_forge.Common.{
  ℕ, zero, suc, ◌<◌, Bool, true, false, some, List, [], ◌∷◌, ◌++◌, map, ◌≡◌, refl, ap, ◌∙◌, arith,
  Bool-cases, inl, inr, length, All, All-append,
}
use mathlib.Core.List.{map-append}
use strat_forge.Common.Int.{ℤ}
use strat_forge.Double.{Double}
use strat_forge.Observers.Increment.{IncrementSnapshot, TerminationReason}
use strat_forge.Observers.Batcher.{
  IncrementBatcher, BatcherConfig, Signal, signal, signals, emit, snapshot_of, maybe_flush, flushes,
  record_bar, next, notify_trade, stop, new_batcher,
}

-- 1 to n.
abbrev pub numbers : ℕ → List ℕ
numbers zero = []
numbers (suc n) = numbers n ++ (suc n ∷ [])

module _ {W : Type 0} ⦃d : Double W⦄ where
  abbrev pub GoesOn : Signal W → Type 0
  GoesOn Signal.stops = ⊥
  GoesOn _ = Unit

  -- A batcher that is not stopped: its snapshots are numbered from 1 on, none is final, and fewer bars
  -- wait than make a batch.
  pub record IsRunning (max : ℕ) (s : IncrementBatcher W) : Type 0 where
    pub configured : s.config.max_bars_per_batch ≡ max
    pub numbered : map (λ x. x.seq) s.flushed ≡ numbers s.seq
    pub not_final : All (λ x. x.is_final ≡ false) s.flushed
    pub below : length s.pending_bars < max

  emit-numbered :
      (final : Bool) (s : IncrementBatcher W)
      → map (λ x. x.seq) s.flushed ≡ numbers s.seq
      → map (λ x. x.seq) (emit final s).flushed ≡ numbers (emit final s).seq
  unfolding emit snapshot_of
  emit-numbered final s h =
      map-append (λ x. x.seq) s.flushed (snapshot_of final s ∷ [])
      ∙ ap (λ r. r ++ (suc s.seq ∷ [])) h

  below_batch :
      (now : ℤ) (s : IncrementBatcher W)
      → flushes false now s ≡ false
      → length s.pending_bars < s.config.max_bars_per_batch
  unfolding flushes
  below_batch now s h = ground arith

  maybe_flush-IsRunning :
      (max : ℕ) (now : ℤ) (s : IncrementBatcher W)
      → 0 < max
      → s.config.max_bars_per_batch ≡ max
      → map (λ x. x.seq) s.flushed ≡ numbers s.seq
      → All (λ x. x.is_final ≡ false) s.flushed
      → IsRunning max (maybe_flush false now s)
  unfolding maybe_flush emit snapshot_of
  maybe_flush-IsRunning max now s p c n f = elim (Bool-cases (flushes false now s)) [
    | inl yes_now ↦ rw yes_now (record {
      configured = c;
      numbered = emit-numbered false s n;
      not_final = All-append (λ x. x.is_final ≡ false) s.flushed _ f (refl, tt);
      below = p;
    })
    | inr not_yet ↦ rw not_yet (record {
      configured = c;
      numbered = n;
      not_final = f;
      below = omega (arith, below_batch now s not_yet, c);
    })
  ]

  signal-IsRunning :
      (max : ℕ) (x : Signal W) (s : IncrementBatcher W)
      → 0 < max
      → GoesOn x
      → IsRunning max s
      → IsRunning max (signal x s)
  unfolding signal next record_bar notify_trade
  signal-IsRunning max (Signal.starts now) s p g r = record {
    configured = r.configured;
    numbered = r.numbered;
    not_final = r.not_final;
    below = r.below;
  }
  signal-IsRunning max (Signal.nexts b fs now) s p g r =
      maybe_flush-IsRunning max now (record_bar b fs s) p r.configured r.numbered r.not_final
  signal-IsRunning max (Signal.trades t) s p g r = record {
    configured = r.configured;
    numbered = r.numbered;
    not_final = r.not_final;
    below = r.below;
  }
  signal-IsRunning max Signal.stops s p g r = absurd g

  signals-IsRunning :
      (max : ℕ) (xs : List (Signal W)) (s : IncrementBatcher W)
      → 0 < max
      → All GoesOn xs
      → IsRunning max s
      → IsRunning max (signals xs s)
  unfolding signals
  signals-IsRunning max [] s p g r = r
  signals-IsRunning max (x ∷ xs) s p g r =
      signals-IsRunning max xs (signal x s) p g.1 (signal-IsRunning max x s p g.0 r)

  -- The last snapshot says how the run ended, and takes all that waits.
  pub record IsEnd (n : ℕ) (s : IncrementBatcher W) (snap : IncrementSnapshot W) : Type 0 where
    pub final : snap.is_final ≡ true
    pub reason : snap.termination ≡ some TerminationReason.normal
    pub last_number : snap.seq ≡ n
    pub no_bars : s.pending_bars ≡ []
    pub no_trades : s.pending_trades ≡ []
    pub no_points : s.pending_equity ≡ []

  -- With a bound above 0 for a batch, a new batcher and any calls but `stop`: the snapshots are
  -- numbered from 1 on, none is final, and fewer bars wait than the bound. A call of `stop` then adds
  -- one snapshot, with the next number, that is final with the reason Normal, and nothing waits.
  pub signals-Final :
      (config : BatcherConfig) (xs : List (Signal W))
      → 0 < config.max_bars_per_batch
      → All GoesOn xs
      → let s = signals xs (new_batcher config) in
        IsRunning config.max_bars_per_batch s
        × ((snap : IncrementSnapshot W) × ((stop s).flushed ≡ s.flushed ++ (snap ∷ []))
            × IsEnd (suc s.seq) (stop s) snap)
  unfolding stop emit snapshot_of new_batcher
  signals-Final config xs p g =
      let fresh : IsRunning config.max_bars_per_batch (new_batcher config) = record {
        configured = refl;
        numbered = refl;
        not_final = tt;
        below = p;
      } in
      let s = signals xs (new_batcher {W = W} config) in
      (
        signals-IsRunning config.max_bars_per_batch xs (new_batcher config) p g fresh,
        (
          snapshot_of true s,
          refl,
          record {
            final = refl;
            reason = refl;
            last_number = refl;
            no_bars = refl;
            no_trades = refl;
            no_points = refl;
          },
        ),
      )
