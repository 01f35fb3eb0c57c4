-- ===== src/Broker/Trade/Update.antt =====
-- What a fill does to a trade.
use strat_forge.Common.{ℕ, true, false, ◌≡◌, arith, ◌∙◌, ◌⊎◌, Bool-cases, inl, inr}
use strat_forge.Double.{Double, ◌⊕◌, ◌⊖◌, ◌⊗◌, ◌⊘◌, nought, IsExact}
use strat_forge.Double.Ring.{
  add_left_comm, zero_add, neg_mul, mul_sub, add_sub_sub, add_sub_add, neg_add_eq_sub,
}
use strat_forge.Broker.Currency.{DateTime}
use strat_forge.Broker.Position.{is_tiny}
use strat_forge.Broker.Trade.Granular.{IsGranular}
use strat_forge.Broker.Trade.{
  Trade, update, filled, grows, closes, blended_price, realized_pnl, is_open,
}

module _ {W : Type 0} ⦃d : Double W⦄ where
  -- The net profit is the gross one less all commissions, and a closed trade is empty.
  pub record IsCoherent (t : Trade W) : Type 0 where
    pub net : t.pnlcomm ≡ t.pnl ⊖ t.commission
    pub closed_empty : (is_open t ≡ true) ⊎ (t.size ≡ nought)

  -- The worth of a trade at a price: what it has realized and the open part at that price.
  pub equity : Trade W → W → W
  equity t x = t.pnl ⊕ (t.size ⊗ (x ⊖ t.price))

  module _ (exact : IsExact W) where
    open exact use {add_assoc, add_comm, add_zero, add_mul, zero_mul}

    -- A fill at `f` on an open size `s` that does not grow: the profit on the fill and the rest.
    settle :
        (s f x p q : W) → (d.neg f ⊗ (q ⊖ p)) ⊕ ((s ⊕ f) ⊗ (x ⊖ p)) ≡ (s ⊗ (x ⊖ p)) ⊕ (f ⊗ (x ⊖ q))
    settle s f x p q = rw (
      add_mul s f (x ⊖ p),
      neg_mul exact f (q ⊖ p),
      add_left_comm exact,
      neg_add_eq_sub exact (f ⊗ (q ⊖ p)) (f ⊗ (x ⊖ p)),
      ← mul_sub exact f (x ⊖ p) (q ⊖ p),
      add_sub_sub exact x p q,
    )

    blend :
        (s f x p q m : W)
        → (s ⊕ f) ⊗ m ≡ (s ⊗ p) ⊕ (f ⊗ q)
        → (s ⊕ f) ⊗ (x ⊖ m) ≡ (s ⊗ (x ⊖ p)) ⊕ (f ⊗ (x ⊖ q))
    blend s f x p q m h = rw (
      mul_sub exact (s ⊕ f) x m,
      h,
      add_mul s f x,
      add_sub_add exact,
      mul_sub exact s x p,
      mul_sub exact f x q,
    )

  module _ (exact : IsExact W) (granular : IsGranular W) where
    open exact use {add_assoc, add_comm, add_zero, zero_mul}
    open granular use {zero_of_tiny, tiny_zero, sized-eq-not-tiny}

    -- The quotient in the average price of a growing trade is exact.
    abbrev pub Divides : Trade W → W → W → Type 0
    Divides t fill q =
        (t.size ⊕ fill) ⊗ (((t.size ⊗ t.price) ⊕ (fill ⊗ q)) ⊘ (t.size ⊕ fill))
        ≡ (t.size ⊗ t.price) ⊕ (fill ⊗ q)

    equity-filled :
        (t : Trade W) (fill q comm : W) (bar : ℕ) (at_time : DateTime) (x : W)
        → ((grows (t.size ⊕ fill) t.size ≡ false) ⊎ Divides t fill q)
        → equity (filled t fill q comm bar at_time) x ≡ equity t x ⊕ (fill ⊗ (x ⊖ q))
    unfolding equity filled blended_price realized_pnl
    equity-filled t fill q comm bar at_time x h = ground (
      arith,
      zero_of_tiny t.size,
      sized-eq-not-tiny t.size,
      add_zero t.pnl,
      zero_add exact fill,
      zero_mul (x ⊖ t.price),
      add_assoc t.pnl (t.size ⊗ (x ⊖ t.price)) (fill ⊗ (x ⊖ q)),
      add_assoc t.pnl (d.neg fill ⊗ (q ⊖ t.price)) ((t.size ⊕ fill) ⊗ (x ⊖ t.price)),
      settle exact t.size fill x t.price q,
      blend exact t.size fill x t.price q (((t.size ⊗ t.price) ⊕ (fill ⊗ q)) ⊘ (t.size ⊕ fill)),
    )

    zero-of_closes : (t : Trade W) (fill : W) → closes t fill ≡ true → t.size ⊕ fill ≡ nought
    unfolding closes
    zero-of_closes t fill h =
        ground (arith, sized-eq-not-tiny (t.size ⊕ fill), zero_of_tiny (t.size ⊕ fill))

    equity-closed :
        (t : Trade W) (fill q comm : W) (bar : ℕ) (at_time : DateTime) (x : W)
        → is_tiny fill ≡ false
        → closes t fill ≡ true
        → equity (update t fill q comm bar at_time) x ≡ equity (filled t fill q comm bar at_time) x
    unfolding equity update filled
    equity-closed t fill q comm bar at_time x h c = rw (h, c, zero-of_closes t fill c, zero_mul)

    equity-still_open :
        (t : Trade W) (fill q comm : W) (bar : ℕ) (at_time : DateTime) (x : W)
        → is_tiny fill ≡ false
        → closes t fill ≡ false
        → equity (update t fill q comm bar at_time) x ≡ equity (filled t fill q comm bar at_time) x
    unfolding update
    equity-still_open t fill q comm bar at_time x h c = rw (h, c)

    -- In exact arithmetic with granular sizes, for a fill of at least 1e-10 in size, and, where
    -- the trade grows, with an exact quotient in its average price: a fill changes the worth of a
    -- trade at a price x by the fill times the distance of x to the price paid, whatever it does:
    -- open, add, reduce, close or reverse.
    pub equity-update :
        (t : Trade W) (fill q comm : W) (bar : ℕ) (at_time : DateTime) (x : W)
        → is_tiny fill ≡ false
        → ((grows (t.size ⊕ fill) t.size ≡ false) ⊎ Divides t fill q)
        → equity (update t fill q comm bar at_time) x ≡ equity t x ⊕ (fill ⊗ (x ⊖ q))
    equity-update t fill q comm bar at_time x h v = elim (Bool-cases (closes t fill)) [
      | inl c ↦
          equity-closed t fill q comm bar at_time x h c
          ∙ equity-filled t fill q comm bar at_time x v
      | inr c ↦
          equity-still_open t fill q comm bar at_time x h c
          ∙ equity-filled t fill q comm bar at_time x v
    ]

  -- When the net profit of a trade is the gross one less all commissions and the trade is open or
  -- empty, it is so after every fill.
  pub update-IsCoherent :
      (t : Trade W) (fill q comm : W) (bar : ℕ) (at_time : DateTime)
      → IsCoherent t
      → IsCoherent (update t fill q comm bar at_time)
  unfolding update filled
  update-IsCoherent t fill q comm bar at_time v = ground arith
