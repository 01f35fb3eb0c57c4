-- ===== src/Broker/Submit/Brackets.antt =====
-- What `buy_bracket` and `sell_bracket` of include/stratforge/broker/broker.hpp submit.
use strat_forge.Common.{
  ℕ, suc, ◌<◌, true, false, List, [], ◌∷◌, ◌++◌, ◌≡◌, refl, ap, ◌∙◌, arith, some, none,
}
use strat_forge.Double.{Double, nought}
use strat_forge.Broker.Order.{Order, OrderType, OrderSide}
use strat_forge.Broker.State.{Broker, PreOrderResult}
use strat_forge.Broker.Submit.{
  bracket, submit_order, submit_order_ext, set_children, new_order, plain, child_params, opposite,
  ask_hook, BracketResult,
}
use strat_forge.Broker.Submit.Numbering.{Numbered}
use strat_forge.Broker.Process.{is_held}

module _ {W : Type 0} ⦃d : Double W⦄ where
  set_children-fresh :
      (n : ℕ) (kids : List ℕ) (os rest : List (Order W)) (m : Order W)
      → Numbered n os
      → m.id ≡ n
      → set_children n kids (os ++ (m ∷ rest)) ≡ os ++ (record m { child_ids = kids } ∷ rest)
  unfolding set_children
  set_children-fresh n kids [] rest m h e = ground arith
  set_children-fresh n kids (o ∷ os) rest m h e =
      ground (arith, set_children-fresh n kids os rest m h.1 e, h.0.1)

  three-append :
      (os : List (Order W)) (x y z : Order W)
      → ((os ++ (x ∷ [])) ++ (y ∷ [])) ++ (z ∷ []) ≡ os ++ (x ∷ y ∷ z ∷ [])
  three-append [] x y z = refl
  three-append (o ∷ os) x y z = ap (λ r. o ∷ r) (three-append os x y z)

  -- An order of a bracket: under its number, side, kind of price and group.
  pub record IsChild (o : Order W) (id main group : ℕ) (side : OrderSide) : Type 0 where
    pub id_eq : o.id ≡ id
    pub side_eq : o.side ≡ side
    pub parent_eq : o.parent_id ≡ main
    pub group_eq : o.oco_group_id ≡ group
    pub held : is_held o ≡ true

  abbrev accepted : W → PreOrderResult W
  accepted size = record { candidate_id = 0; final_size = size; rejected = false }

  abbrev pub Orders : Broker W → OrderSide → Broker W × BracketResult → Type 0
  Orders b side r =
      (main : Order W) × (limit : Order W) × (stop : Order W) × (r.0.pending_orders
        ≡ b.pending_orders ++ (main ∷ limit ∷ stop ∷ []))
      × (r.0.all_orders ≡ b.all_orders ++ (main ∷ limit ∷ stop ∷ []))
      × (r.0.next_oco_group_id ≡ suc b.next_oco_group_id)
      × (r.0.next_order_id ≡ suc (suc (suc b.next_order_id)))
      × (main.id ≡ b.next_order_id)
      × (main.child_ids ≡ limit.id ∷ stop.id ∷ [])
      × (is_held main ≡ false)
      × IsChild limit (suc b.next_order_id) b.next_order_id b.next_oco_group_id (opposite side)
      × IsChild stop (suc (suc b.next_order_id)) b.next_order_id b.next_oco_group_id (opposite side)

  -- Without a pre-order hook, and with ids below the next one in use: a bracket adds three orders at
  -- the end of the pending orders and of the book, numbered on from the next id. The first is not
  -- held and names the other two as its children; these stand on the other side, have the first as
  -- parent, share the next OCO group, and are held. The next group and the next id move on past those
  -- that the bracket took.
  pub bracket-Orders :
      (side : OrderSide) (size limit_price stop_price : W) (i : ℕ) (b : Broker W)
      → b.config.pre_order_hook ≡ none
      → 0 < b.next_order_id
      → Numbered b.next_order_id b.pending_orders
      → Numbered b.next_order_id b.all_orders
      → Orders b side (bracket side size limit_price stop_price i b)
  unfolding bracket submit_order submit_order_ext ask_hook
  bracket-Orders side size limit_price stop_price i b hook p h k =
      let n = b.next_order_id in
      let g = b.next_oco_group_id in
      let por = accepted size in
      let sent = new_order n side por (plain OrderType.market nought none i) in
      let limit =
        new_order (suc n) (opposite side) por
          (child_params OrderType.limit limit_price none i n g) in
      let stop =
        new_order (suc (suc n)) (opposite side) por
          (child_params OrderType.stop nought (some stop_price) i n g) in
      let kids = suc n ∷ suc (suc n) ∷ [] in
      let main = record sent { child_ids = kids } in
      rw hook (
        main,
        limit,
        stop,
        ap (set_children n kids) (three-append b.pending_orders sent limit stop)
            ∙ set_children-fresh n kids b.pending_orders (limit ∷ stop ∷ []) sent h refl,
        ap (set_children n kids) (three-append b.all_orders sent limit stop)
            ∙ set_children-fresh n kids b.all_orders (limit ∷ stop ∷ []) sent k refl,
        refl,
        refl,
        refl,
        refl,
        refl,
        record {
          id_eq = refl;
          side_eq = refl;
          parent_eq = refl;
          group_eq = refl;
          held = ground arith;
        },
        record {
          id_eq = refl;
          side_eq = refl;
          parent_eq = refl;
          group_eq = refl;
          held = ground arith;
        },
      )
