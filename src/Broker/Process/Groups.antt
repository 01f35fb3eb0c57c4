-- ===== src/Broker/Process/Groups.antt =====
-- One order of an OCO group that is completed in a pass closes the group.
use strat_forge.Common.{
  ℕ, zero, suc, true, false, ◌&&◌, ◌||◌, List, [], ◌∷◌, ◌++◌, ◌≡◌, refl, arith, All, Bool-cases,
  Option-cases, some, inl, inr, ◌==◌, get_elem?, keep_if,
}
use strat_forge.Double.{Double}
use strat_forge.Broker.Order.{Order, is_alive, is_completed, cancel}
use strat_forge.Broker.State.{Broker, Feed, sync_order, notify_order}
use strat_forge.Broker.Submit.{cancel_all}
use strat_forge.Broker.Process.{
  Pass, Handled, handle, book, step_at, walk, close_groups, in_groups, contains, filled_group,
}

contains-append : (g : ℕ) (xs ys : List ℕ) → contains g (xs ++ ys) ≡ contains g xs || contains g ys
unfolding contains
contains-append g [] ys = refl
contains-append g (x ∷ xs) ys = ground (arith, contains-append g xs ys)

module _ {W : Type 0} ⦃d : Double W⦄ where
  -- No order of the group.
  abbrev pub NoneOf : ℕ → List (Order W) → Type 0
  NoneOf g = All λ o. (o.oco_group_id == g) ≡ false

  cancelled-NoneOf :
      (gs : List ℕ) (g : ℕ) (os : List (Order W)) (b : Broker W)
      → (g == 0) ≡ false
      → contains g gs ≡ true
      → NoneOf g (keep_if is_alive (cancel_all (in_groups gs) os b).1)
  unfolding cancel_all cancel
  cancelled-NoneOf gs g [] b h k = tt
  cancelled-NoneOf gs g (o ∷ os) b h k = elim (Bool-cases (in_groups gs o && is_alive o)) [
    | inl hit ↦ rw hit (
        ground
          (arith, cancelled-NoneOf gs g os (notify_order (cancel o) (sync_order (cancel o) b)) h k))
    | inr miss ↦ rw miss (ground (arith, cancelled-NoneOf gs g os b h k))
  ]

  close_groups-NoneOf :
      (gs : List ℕ) (g : ℕ) (still : List (Order W)) (b : Broker W)
      → (g == 0) ≡ false
      → contains g gs ≡ true
      → NoneOf g (close_groups gs still b).pending_orders
  unfolding close_groups contains
  close_groups-NoneOf [] g still b h k = absurd (ground arith)
  close_groups-NoneOf (x ∷ gs) g still b h k = cancelled-NoneOf (x ∷ gs) g still b h k

  book-contains :
      (g i : ℕ) (h : Handled W) (p : Pass W)
      → contains g p.filled_oco_groups ≡ true
      → contains g (book i h p).filled_oco_groups ≡ true
  unfolding book
  book-contains g i h p k =
      ground (arith, contains-append g p.filled_oco_groups (filled_group h.order))

  step_at-contains :
      (fs : List (Feed W)) (g i : ℕ) (p : Pass W)
      → contains g p.filled_oco_groups ≡ true
      → contains g (step_at fs i p).filled_oco_groups ≡ true
  unfolding step_at
  step_at-contains fs g i p k = elim (Option-cases (get_elem? p.broker.pending_orders i)) [
    | inl e ↦ rw (e, step_at) k
    | inr (o, e) ↦ elim (Bool-cases (is_alive o)) [
      | inl live ↦ rw (e, step_at, live) (book-contains g i (handle o fs p.broker) p k)
      | inr dead ↦ rw (e, step_at, dead) k
    ]
  ]

  walk-contains :
      (fs : List (Feed W)) (g n i : ℕ) (p : Pass W)
      → contains g p.filled_oco_groups ≡ true
      → contains g (walk fs n i p).filled_oco_groups ≡ true
  unfolding walk
  walk-contains fs g zero i p k = k
  walk-contains fs g (suc n) i p k =
      walk-contains fs g n (suc i) (step_at fs i p) (step_at-contains fs g i p k)

  book-filled :
      (i g : ℕ) (h : Handled W) (p : Pass W)
      → h.stays ≡ false
      → h.done ≡ true
      → is_completed h.order.status ≡ true
      → h.order.oco_group_id ≡ g
      → (g == 0) ≡ false
      → contains g (book i h p).filled_oco_groups ≡ true
  unfolding book contains
  book-filled i g h p s e c m z =
      ground (arith, contains-append g p.filled_oco_groups (filled_group h.order))

  step_at-filled :
      (fs : List (Feed W)) (i : ℕ) (p : Pass W) (o : Order W) (g : ℕ)
      → get_elem? p.broker.pending_orders i ≡ some o
      → is_alive o ≡ true
      → (handle o fs p.broker).stays ≡ false
      → (handle o fs p.broker).done ≡ true
      → is_completed (handle o fs p.broker).order.status ≡ true
      → (handle o fs p.broker).order.oco_group_id ≡ g
      → (g == 0) ≡ false
      → contains g (step_at fs i p).filled_oco_groups ≡ true
  unfolding step_at
  step_at-filled fs i p o g here live gone done full member z =
      rw (here, step_at, live) (book-filled i g (handle o fs p.broker) p gone done full member z)

  -- Take any stage of a pass that comes to a live order, and let the attempt on it complete it as
  -- a member of an OCO group. When the pass is over, after any number of further orders, no order
  -- of that group is pending, whether it stood before or after the completed one.
  pub walk-NoneOf :
      (fs : List (Feed W)) (n i : ℕ) (p : Pass W) (o : Order W) (g : ℕ)
      → get_elem? p.broker.pending_orders i ≡ some o
      → is_alive o ≡ true
      → (handle o fs p.broker).stays ≡ false
      → (handle o fs p.broker).done ≡ true
      → is_completed (handle o fs p.broker).order.status ≡ true
      → (handle o fs p.broker).order.oco_group_id ≡ g
      → (g == 0) ≡ false
      → NoneOf g
          (close_groups
            (walk fs (suc n) i p).filled_oco_groups
            (walk fs (suc n) i p).still_pending
            (walk fs (suc n) i p).broker).pending_orders
  unfolding walk
  walk-NoneOf fs n i p o g here live gone done full member z =
      let q = walk fs n (suc i) (step_at fs i p) in
      close_groups-NoneOf q.filled_oco_groups g q.still_pending q.broker z (
        walk-contains fs g n (suc i) (step_at fs i p)
          (step_at-filled fs i p o g here live gone done full member z))
