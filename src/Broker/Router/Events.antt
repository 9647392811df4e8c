-- ===== src/Broker/Router/Events.antt =====
-- Every call of the router changes its maps by the steps of Reach, and what that means for the orders
-- and fills that an exchange reports.
use Prim.Derive.{subst}
use tesser.Prelude.{
  ℕ, suc, ◌≡◌, ◌≢◌, refl, sym, ◌∙◌, ap, inl, inr, Option, none, some, List, [], ◌∷◌, ◌++◌, arith,
  Option-cases, Bool-cases,
}
use tesser.Prelude.Result.{ok, err, Result-cases}
use tesser.Prelude.Key.{nat_key}
use tesser.Prelude.Bytes.{same_text, same_text_iff, text_key, codes}
use tesser.Core.Ids.{ExchangeId, Symbol, is_specified}
use tesser.Core.Types.{Text, OrderRequest, OrderUpdateRequest, Order, Fill}
use tesser.Broker.{invalid_request}
use tesser.Broker.Router.{
  Router, RoutedOrder, RouteState, empty_state, get, lookup_external_order, client_for,
  translate_internal, normalize_external_order, normalize_fill_event, normalize_all,
  outbound_client_id, foreign_client_id, group_suffix, place_order, amend_order, list_open_orders,
}
use tesser.Broker.Router.Names.{is_router_namespace}
use tesser.Broker.Router.Reach.{
  recorded, moved, Reach, here, next, get-insert_route, LeadsHome, Reach-LeadsHome,
}
use tesser.Broker.Router.History.{owner, recorded_as, Reach-owner, Reach-recorded}
use tesser.Broker.Router.Calls.{normalize_external_order-Reach}

Reach-trans : {s t u : RouteState} → Reach s t → Reach t u → Reach s u
Reach-trans r here = r
Reach-trans r (next u st) = next (Reach-trans r u) st

translate-none :
    (id : Text) (s : RouteState)
    → get id s ≡ none
    → translate_internal id s ≡ err (invalid_request (codes "unknown order id " ++ id))
unfolding translate_internal
translate-none id s h = rw (h, translate_internal) refl

translate-some :
    (id : Text) (s : RouteState) (q : RoutedOrder)
    → get id s ≡ some q
    → translate_internal id s ≡ ok q
unfolding translate_internal
translate-some id s q h = rw (h, translate_internal) refl

own_client_id :
    (client_id : Option Text) (internal : Text)
    → foreign_client_id (some (outbound_client_id client_id internal)) ≡ none
unfolding is_router_namespace
own_client_id client_id internal = elim (Option-cases (group_suffix client_id)) [
  | inl h ↦ rw (h, outbound_client_id) refl
  | inr (tag, h) ↦ rw (h, outbound_client_id) refl
]

module _ {D : Type 0} where
  normalize-fresh :
      (exchange : ExchangeId) (drawn other : Text) (o : Order D) (s : RouteState)
      → other ≢ drawn
      → get other s ≡ none
      → get other (normalize_external_order exchange drawn o s).1 ≡ none
  unfolding normalize_external_order
  normalize-fresh exchange drawn other o s n h =
      elim (Option-cases (lookup_external_order exchange o.id s)) [
        | inl e ↦
            rw (e, normalize_external_order)
              (get-insert_route other drawn _ s ∙ ground (arith, h, same_text_iff other drawn))
        | inr (i, e) ↦ rw (e, normalize_external_order) h
      ]

  normalize_all-Reach :
      (exchange : ExchangeId) (drawn : ℕ → Text) (orders : List (Order D)) (s : RouteState)
      → ((n : ℕ) → get (drawn n) s ≡ none)
      → ((m n : ℕ) → drawn m ≡ drawn n → m ≡ n)
      → Reach s (normalize_all exchange drawn orders s).1
  normalize_all-Reach exchange drawn [] s fresh apart = here
  normalize_all-Reach exchange drawn (o ∷ orders) s fresh apart =
      Reach-trans (normalize_external_order-Reach exchange (drawn 0) o s (fresh 0)) (
        normalize_all-Reach exchange (λ n. drawn (suc n)) orders _
          (λ n.
            normalize-fresh exchange (drawn 0) (drawn (suc n)) o s
              (λ e. absurd (omega (arith, apart (suc n) 0 e))) (fresh (suc n)))
          (λ m n e. omega (arith, apart (suc m) (suc n) e)))

module _ {S D : Type 0} (show_exchange : ExchangeId → Text) where
  place_order-Reach :
      (drawn : Text) (request : OrderRequest D) (r : Router S D) (s : S)
      → get drawn r.state ≡ none
      → Reach r.state (place_order show_exchange drawn request r s).1.state
  unfolding place_order
  place_order-Reach drawn request r s n = elim (Bool-cases (is_specified request.symbol.exchange)) [
    | inl b ↦ elim (Result-cases (client_for show_exchange request.symbol.exchange r)) [
      | inl (client, c) ↦
          elim (Result-cases
            (client.place_order
              (record request {
                client_order_id = some (outbound_client_id request.client_order_id drawn);
              })
              s).0) [
                | inl (o, a) ↦ rw (b, c, a, place_order) (next here (recorded drawn _ n refl))
                | inr (e, a) ↦ rw (b, c, a, place_order) here
              ]
      | inr (e, c) ↦ rw (b, c, place_order) here
    ]
    | inr b ↦ rw (b, place_order) here
  ]

  amend_order-Reach :
      (request : OrderUpdateRequest D) (r : Router S D) (s : S)
      → Reach r.state (amend_order show_exchange request r s).1.state
  unfolding amend_order
  amend_order-Reach request r s = elim (Option-cases (get request.order_id r.state)) [
    | inl h ↦
        let t : translate_internal request.order_id r.state
            ≡ err (invalid_request (codes "unknown order id " ++ request.order_id)) =
          translate-none request.order_id r.state h in
        rw (t, amend_order) here
    | inr (q, h) ↦
        let t : translate_internal request.order_id r.state ≡ ok q =
          translate-some request.order_id r.state q h in
        elim (Result-cases (client_for show_exchange q.exchange r)) [
          | inl (client, c) ↦
              elim (Result-cases
                (client.amend_order
                  (record request { order_id = q.external_order_id; symbol = q.symbol }) s).0) [
                    | inl (o, a) ↦ elim (Bool-cases (same_text o.id q.external_order_id)) [
                      | inl b ↦ rw (t, c, a, b, amend_order) here
                      | inr b ↦
                          rw (t, c, a, b, amend_order)
                            (next here (moved request.order_id q o.id h refl))
                    ]
                    | inr (e, a) ↦ rw (t, c, a, amend_order) here
                  ]
          | inr (e, c) ↦ rw (t, c, amend_order) here
        ]
  ]

  list_open_orders-Reach :
      (drawn : ℕ → Text) (symbol : Symbol) (r : Router S D) (s : S)
      → ((n : ℕ) → get (drawn n) r.state ≡ none)
      → ((m n : ℕ) → drawn m ≡ drawn n → m ≡ n)
      → Reach r.state (list_open_orders show_exchange drawn symbol r s).1.state
  unfolding list_open_orders
  list_open_orders-Reach drawn symbol r s fresh apart =
      elim (Result-cases (client_for show_exchange symbol.exchange r)) [
        | inl (client, c) ↦ elim (Result-cases (client.list_open_orders symbol s).0) [
          | inl (orders, a) ↦
              rw (c, a, list_open_orders)
                (normalize_all-Reach symbol.exchange drawn orders r.state fresh apart)
          | inr (e, a) ↦ rw (c, a, list_open_orders) here
        ]
        | inr (e, c) ↦ rw (c, list_open_orders) here
      ]

  -- Every call that changes the maps of the router does so by steps: orders that are placed, reported
  -- or listed are recorded under the identifiers drawn for them, which are new and different, and an
  -- amendment moves an order that is known. Nothing else changes them, whatever the exchanges answer.
  pub calls-Reach :
      (r : Router S D) (s : S) (drawn : ℕ → Text) (exchange : ExchangeId) (symbol : Symbol)
      (request : OrderRequest D) (update : OrderUpdateRequest D) (o : Order D)
      → ((n : ℕ) → get (drawn n) r.state ≡ none)
      → ((m n : ℕ) → drawn m ≡ drawn n → m ≡ n)
      → Reach r.state (place_order show_exchange (drawn 0) request r s).1.state
        × Reach r.state (amend_order show_exchange update r s).1.state
        × Reach r.state (list_open_orders show_exchange drawn symbol r s).1.state
        × Reach r.state (normalize_external_order exchange (drawn 0) o r.state).1
  calls-Reach r s drawn exchange symbol request update o fresh apart = (
    place_order-Reach (drawn 0) request r s (fresh 0),
    amend_order-Reach update r s,
    list_open_orders-Reach drawn symbol r s fresh apart,
    normalize_external_order-Reach exchange (drawn 0) o r.state (fresh 0),
  )

module _ {D : Type 0} where
  -- a fill under the identifier of the order that the exchange last gave its identifier to, and under
  -- the symbol that this order was recorded with
  abbrev pub Named : {s t : RouteState} → ExchangeId → Reach s t → Fill D → Option (Fill D) → Type 0
  Named exchange u f none = owner exchange f.order_id u ≡ none
  Named exchange u f (some f') =
      (internal : Text) × (q : RoutedOrder) × (owner exchange f.order_id u ≡ some internal)
      × (recorded_as internal u ≡ some q)
      × (q.exchange ≡ exchange)
      × (f' ≡ record f { order_id = internal; symbol = q.symbol })

  -- Of a router that began with no orders, a fill that an exchange reports is passed on under the
  -- identifier of the order that was the last to get the identifier of the fill at that exchange, when it
  -- was recorded or moved, and under the symbol that this order was recorded with; it is not passed on
  -- exactly if no order ever got that identifier there. All else of the fill stays.
  pub fills-Named :
      (exchange : ExchangeId) (f : Fill D) (s : RouteState) (u : Reach empty_state s)
      → Named exchange u f (normalize_fill_event exchange f s)
  unfolding normalize_fill_event
  fills-Named exchange f s u =
      let told = Reach-owner exchange f.order_id u in
      elim (Option-cases (lookup_external_order exchange f.order_id s)) [
        | inl h ↦ rw (h, normalize_fill_event) (sym told ∙ h)
        | inr (i, h) ↦
            let (r, known, at) = home i h in
            let (q, was, there, symbol) = Reach-recorded i r u known in
            rw (h, known, normalize_fill_event)
              (
                i,
                q,
                sym told ∙ h,
                was,
                there ∙ at,
                ap (λ x. record f { order_id = i; symbol = x }) (sym symbol),
              )
      ]
    where
      home :
          (i : Text)
          → lookup_external_order exchange f.order_id s ≡ some i
          → LeadsHome exchange (some i) s
      home i h = subst (λ o. LeadsHome exchange o s) h (Reach-LeadsHome exchange f.order_id u)

  -- After a restart an order that the router itself had placed, with any client identifier, comes back
  -- from the exchange without that client identifier.
  pub restart_forgets :
      (exchange : ExchangeId) (drawn internal : Text) (client_id : Option Text) (o : Order D)
      → o.request.client_order_id ≡ some (outbound_client_id client_id internal)
      → (normalize_external_order exchange drawn o empty_state).0.request.client_order_id ≡ none
  unfolding normalize_external_order is_router_namespace
  restart_forgets exchange drawn internal client_id o h =
      ap foreign_client_id h ∙ own_client_id client_id internal
