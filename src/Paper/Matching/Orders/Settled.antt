-- ===== src/Paper/Matching/Orders/Settled.antt =====
-- Placing, cancelling and amending an order keep what is filled and what remains in step.
use Prim.Derive.{subst}
use tesser.Prelude.{
  ℕ, ◌≡◌, refl, sym, ◌∙◌, ap, inl, inr, Bool, true, false, ◌&&◌, Option, none, some, List, [], ◌∷◌,
  ◌⊎◌, ◌++◌, map, suc, arith, if◌then◌else◌, Bool-cases, Option-cases, List-cases,
}
use tesser.Prelude.Int.{◌+ℤ◌, +ℤ_parts, eq_of_parts}
use tesser.Prelude.HashMap.{lookup, Values, insert-Values, remove-Values, lookup-Values}
use tesser.Prelude.Bytes.{text_key}
use tesser.Decimal.{Decimal, units, nought, ◌⊖◌, ◌<?◌, ◌=?◌, max}
use tesser.Decimal.Laws.{IsExact}
use tesser.Decimal.Parts.{IsNonneg, ◌≼◌, sub_parts}
use tesser.Core.Ids.{Symbol, same_symbol}
use tesser.Core.Types.{
  Text, Fill, Time, same_side, accepted, market, limit, stop_market, OrderType, Order, OrderRequest,
  OrderUpdateRequest,
}
use tesser.Core.Cash.{sum}
use tesser.Paper.Matching.{
  MatchingEngine, RestingOrder, no_latency, simulated_now, activation_deadline, take_all,
  limit_crosses,
}
use tesser.Paper.Matching.Booking.{apply_fill_accounting}
use tesser.Paper.Matching.Orders.{
  Attached, Draws, spawn_attached_orders, record_resting_order, build_pending_order, match_market,
  handle_immediate_fills, book_slices, take_now, place_order, cancel_order, amend_order, filled_by,
  repriced, resized, restated, unqueued, requeued, below_filled,
}
use tesser.Paper.Matching.Trades.Meet.{IsSettled, max_of}
use tesser.Paper.Matching.Trades.Fair.{AllSettled, spawned_open}

pub OrderType-cases : (t : OrderType) → (t ≡ market) ⊎ (t ≡ limit) ⊎ (t ≡ stop_market)
OrderType-cases market = inl refl
OrderType-cases limit = inr (inl refl)
OrderType-cases stop_market = inr (inr refl)

module _ {D : Type 0} ⦃d : Decimal D⦄ (laws : IsExact D) where
  -- an order that is filled by no more than its quantity, with the rest as what remains
  remade :
      (filled q : D)
      → IsNonneg filled
      → filled ≼ q
      → (units filled +ℤ units (max (q ⊖ filled) nought) ≡ units q)
        × IsNonneg (max (q ⊖ filled) nought)
  remade filled q n w =
      let rest : IsNonneg (q ⊖ filled) = omega (arith, sub_parts laws q filled) in
      (
        ap (λ x. units filled +ℤ x) (max_of laws (q ⊖ filled) rest)
            ∙ eq_of_parts _ _ (
                omega
                  (arith, sub_parts laws q filled, +ℤ_parts (units filled) (units (q ⊖ filled)))),
        ground (arith, rest, laws.units-nought),
      )

  record_resting_order-AllSettled :
      (o : Order D) (price : D) (at : Time) (e : MatchingEngine D)
      → o.filled_quantity ≡ nought
      → IsNonneg o.request.quantity
      → AllSettled e
      → AllSettled (record_resting_order o price at e)
  unfolding record_resting_order
  record_resting_order-AllSettled o price at e unfilled n s =
      let empty : IsNonneg o.filled_quantity × (o.filled_quantity ≼ o.request.quantity) =
        ground (arith, unfilled, laws.units-nought, n) in
      let parts = remade o.filled_quantity o.request.quantity empty.0 empty.1 in
      elim (Bool-cases (no_latency e)) [
        | inl b ↦
            rw (b, record_resting_order)
              (insert-Values (IsSettled {D = D}) o.id _ e.open_orders
                (record { whole = parts.0; filled_nonneg = empty.0; remaining_nonneg = parts.1 }) s)
        | inr b ↦
            rw (b, record_resting_order)
              (insert-Values (IsSettled {D = D}) o.id _ e.open_orders
                (record { whole = parts.0; filled_nonneg = empty.0; remaining_nonneg = parts.1 }) s)
      ]

  pub cancel_order-AllSettled :
      (wall : Time) (id : Text) (symbol : Symbol) (e : MatchingEngine D)
      → AllSettled e
      → AllSettled (cancel_order wall id symbol e).1
  unfolding cancel_order
  cancel_order-AllSettled wall id symbol e s = elim (Option-cases (lookup id e.open_orders)) [
    | inl h ↦ rw (h, cancel_order) s
    | inr (r, h) ↦
        let own = lookup-Values (IsSettled {D = D}) id e.open_orders s h in
        elim (Bool-cases (no_latency e)) [
          | inl b ↦ rw (h, b, cancel_order) (remove-Values (IsSettled {D = D}) id e.open_orders s)
          | inr b ↦
              rw (h, b, cancel_order)
                (insert-Values (IsSettled {D = D}) id _ e.open_orders
                  (record {
                    whole = own.whole;
                    filled_nonneg = own.filled_nonneg;
                    remaining_nonneg = own.remaining_nonneg;
                  })
                  s)
        ]
  ]

  repriced-IsSettled :
      (price : Option D) (r : RestingOrder D) → IsSettled r → IsSettled (repriced price r)
  repriced-IsSettled none r s = s
  repriced-IsSettled (some p) r s = record {
    whole = s.whole;
    filled_nonneg = s.filled_nonneg;
    remaining_nonneg = s.remaining_nonneg;
  }

  resized-IsSettled :
      (now : Time) (q : Option D) (r : RestingOrder D)
      → IsSettled r
      → below_filled q r ≡ false
      → IsSettled (restated now (resized q r))
  resized-IsSettled now none r s b =
      let fits : r.order.filled_quantity ≼ r.order.request.quantity = ground (
        arith,
        s.whole,
        s.remaining_nonneg,
        +ℤ_parts (units r.order.filled_quantity) (units r.remaining),
      ) in
      let parts = remade r.order.filled_quantity r.order.request.quantity s.filled_nonneg fits in
      record { whole = parts.0; filled_nonneg = s.filled_nonneg; remaining_nonneg = parts.1 }
  resized-IsSettled now (some q) r s b =
      let parts = remade r.order.filled_quantity q s.filled_nonneg (ground (arith, b)) in
      record { whole = parts.0; filled_nonneg = s.filled_nonneg; remaining_nonneg = parts.1 }

  requeued-AllSettled :
      (id : Text) (r : RestingOrder D) (e : MatchingEngine D)
      → IsSettled r
      → AllSettled e
      → AllSettled (requeued id r e)
  requeued-AllSettled id r e own s = elim (Bool-cases (r.active && (nought <? r.remaining))) [
    | inl b ↦
        rw (b, requeued)
          (insert-Values (IsSettled {D = D}) id _ e.open_orders
            (record {
              whole = own.whole;
              filled_nonneg = own.filled_nonneg;
              remaining_nonneg = own.remaining_nonneg;
            })
            s)
    | inr b ↦ rw (b, requeued) (insert-Values (IsSettled {D = D}) id r e.open_orders own s)
  ]

  below_repriced :
      (price q : Option D) (r : RestingOrder D)
      → below_filled q (repriced price r) ≡ below_filled q r
  below_repriced none q r = refl
  below_repriced (some p) none r = refl
  below_repriced (some p) (some q) r = refl

  pub amend_order-AllSettled :
      (now : Time) (request : OrderUpdateRequest D) (e : MatchingEngine D)
      → AllSettled e
      → AllSettled (amend_order now request e).1
  unfolding amend_order
  amend_order-AllSettled now request e s =
      elim (Option-cases (lookup request.order_id e.open_orders)) [
        | inl h ↦ rw (h, amend_order) s
        | inr (r, h) ↦
            let own = lookup-Values (IsSettled {D = D}) request.order_id e.open_orders s h in
            let moved = repriced-IsSettled request.new_price r own in
            elim (Bool-cases (same_symbol r.order.request.symbol request.symbol)) [
              | inr a ↦ rw (h, a, amend_order) s
              | inl a ↦ elim (Bool-cases (same_side r.order.request.side request.side)) [
                | inr b ↦ rw (h, a, b, amend_order) s
                | inl b ↦ elim (Bool-cases (below_filled request.new_quantity r)) [
                  | inl c ↦
                      rw (h, a, b, c, amend_order)
                        (insert-Values (IsSettled {D = D}) request.order_id _ e.open_orders moved s)
                  | inr c ↦
                      rw (h, a, b, c, amend_order)
                        (requeued-AllSettled request.order_id _ (unqueued r e)
                          (resized-IsSettled now request.new_quantity (repriced request.new_price r)
                            moved (below_repriced request.new_price request.new_quantity r ∙ c))
                          s)
                ]
              ]
            ]
      ]

  module _ (code : Symbol → Text) where
    -- A part of the engine that booking a fill leaves alone is left alone by all of them.
    pub book_slices_keeps :
        {A : Type 0}
        → (part : MatchingEngine D → A)
        → ((f : Fill D) (e : MatchingEngine D) → part (apply_fill_accounting f e) ≡ part e)
        → (times : ℕ → Time) (o : Order D) (slices : List (D × D)) (e : MatchingEngine D)
        → part (book_slices code times o slices e).1 ≡ part e
    book_slices_keeps part kept times o [] e = refl
    book_slices_keeps part kept times o ((price, qty) ∷ slices) e =
        book_slices_keeps part kept (λ n. times (suc n)) o slices _ ∙ kept _ e

    pub spawned_if_keeps :
        {A : Type 0}
        → (part : MatchingEngine D → A)
        → ((drawn : Attached) (o : Order D) (e : MatchingEngine D)
            → part (spawn_attached_orders drawn o e) ≡ part e)
        → (c : Bool) (drawn : Attached) (o : Order D) (e : MatchingEngine D)
        → part (if c then spawn_attached_orders drawn o e else e) ≡ part e
    spawned_if_keeps part kept true drawn o e = kept drawn o e
    spawned_if_keeps part kept false drawn o e = refl

    pub immediate_open :
        (times : ℕ → Time) (drawn : Attached) (o : Order D) (slices : List (D × D))
        (e : MatchingEngine D)
        → (handle_immediate_fills code times drawn o slices e).1.open_orders ≡ e.open_orders
    unfolding handle_immediate_fills apply_fill_accounting
    immediate_open times drawn o slices e =
        let done = filled_by code slices o in
        let booked = book_slices code times done slices e in
        spawned_if_keeps (λ e. e.open_orders) (spawned_open laws code)
          (o.request.quantity =? sum (map (λ p. p.1) slices)) drawn done
          (record booked.1 { fills = booked.1.fills ++ booked.0 })
        ∙ book_slices_keeps (λ e. e.open_orders) (λ f e. refl) times done slices e

    take_now_open :
        (draws : Draws) (o : Order D) (e : MatchingEngine D)
        → (take_now code draws o e).1.open_orders ≡ e.open_orders
    unfolding match_market
    take_now_open draws o e =
        let taken = take_all o.request.side o.request.quantity e.market_depth in
        let e' = record e { market_depth = taken.1 } in
        elim (List-cases taken.0) [
          | inl h ↦ rw (h, match_market, take_now) refl
          | inr (s, rest, h) ↦
              rw (h, match_market, take_now)
                (immediate_open draws.fill_time draws.attached o (s ∷ rest) e')
        ]

    -- What `place_order` does, as it says.
    pub place_order-AllSettled :
        (draws : Draws) (request : OrderRequest D) (e : MatchingEngine D)
        → IsNonneg request.quantity
        → AllSettled e
        → AllSettled (place_order code draws request e).1
    unfolding place_order build_pending_order
    place_order-AllSettled draws request e n s =
        let o = build_pending_order draws.order request in
        let taken : AllSettled (take_now code draws o e).1 =
          subst (Values (IsSettled {D = D})) (sym (take_now_open draws o e)) s in
        elim (OrderType-cases request.order_type) [
          | inl t ↦ rw (t, place_order) taken
          | inr (inl t) ↦ elim (Option-cases request.price) [
            | inl h ↦ rw (t, h, place_order) s
            | inr (price, h) ↦ elim (Bool-cases (limit_crosses request.side price e)) [
              | inl b ↦ rw (t, h, b, place_order) taken
              | inr b ↦ rw (t, h, b, place_order) (rested price)
            ]
          ]
          | inr (inr t) ↦ elim (Option-cases request.trigger_price) [
            | inl h ↦ rw (t, h, place_order) s
            | inr (price, h) ↦ rw (t, h, place_order) s
          ]
        ]
      where
        rested :
            (price : D)
            → AllSettled (
                record_resting_order
                  (if no_latency e
                    then record (build_pending_order draws.order request) {
                      status = accepted;
                      updated_at = simulated_now draws.wall e;
                    }
                    else build_pending_order draws.order request)
                  price
                  (activation_deadline (simulated_now draws.wall e) e)
                  e)
        rested price = elim (Bool-cases (no_latency e)) [
          | inl c ↦ rw c (record_resting_order-AllSettled _ price _ e refl n s)
          | inr c ↦ rw c (record_resting_order-AllSettled _ price _ e refl n s)
        ]
