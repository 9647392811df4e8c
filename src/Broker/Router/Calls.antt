-- ===== src/Broker/Router/Calls.antt =====
-- What the calls of the router do with its maps, and where the calls after them lead.
use tesser.Prelude.{
  ◌≡◌, refl, sym, ◌∙◌, ap, inl, inr, true, none, some, arith, if◌then◌else◌, Option-cases,
  Bool-cases,
}
use tesser.Prelude.Result.{ok}
use tesser.Prelude.HashMap.{lookup}
use tesser.Prelude.Key.{nat_key, pair_key, same_pair, same_pair_iff}
use tesser.Prelude.Bytes.{same_text, same_text_iff, text_key}
use tesser.Core.Ids.{ExchangeId, Symbol, is_specified}
use tesser.Core.Types.{Text, OrderRequest, OrderUpdateRequest, Order, Fill}
use tesser.Broker.{ExecutionClient}
use tesser.Broker.Router.{
  Router, RoutedOrder, RouteState, insert_route, get, lookup_external_order, client_for,
  translate_internal, renamed, normalize_external_order, normalize_fill_event, outbound_client_id,
  place_order, cancel_order, amend_order,
}
use tesser.Broker.Router.Reach.{recorded, Reach, here, next, get-insert_route, lookup-insert_route}
use tesser.Broker.Router.History.{external_after, Reach-external}

module _ {D : Type 0} where
  pub normalize_external_order-Reach :
      (exchange : ExchangeId) (drawn : Text) (o : Order D) (s : RouteState)
      → get drawn s ≡ none
      → Reach s (normalize_external_order exchange drawn o s).1
  unfolding normalize_external_order
  normalize_external_order-Reach exchange drawn o s n =
      elim (Option-cases (lookup_external_order exchange o.id s)) [
        | inl h ↦ rw (h, normalize_external_order) (next here (recorded drawn _ n refl))
        | inr (i, h) ↦ rw (h, normalize_external_order) here
      ]

module _ {D : Type 0} where
  -- the order that a successful placement records
  abbrev pub placed : OrderRequest D → Order D → RoutedOrder
  placed request o = record {
    exchange = request.symbol.exchange;
    symbol = request.symbol;
    external_order_id = o.id;
    original_client_id = request.client_order_id;
  }

  abbrev pub outbound : Text → OrderRequest D → OrderRequest D
  outbound drawn request = record request {
    client_order_id = some (outbound_client_id request.client_order_id drawn);
  }

  fill_known :
      (exchange : ExchangeId) (internal : Text) (f : Fill D) (s : RouteState) (q : RoutedOrder)
      → lookup_external_order exchange f.order_id s ≡ some internal
      → get internal s ≡ some q
      → normalize_fill_event exchange f s
        ≡ some (record f { order_id = internal; symbol = q.symbol })
  unfolding normalize_fill_event
  fill_known exchange internal f s q h known = rw (h, known, normalize_fill_event) refl

module _ {S D : Type 0} (show_exchange : ExchangeId → Text) where
  client_for_lem :
      (exchange : ExchangeId) (r : Router S D) {client : ExecutionClient S D}
      → lookup exchange r.routes ≡ some client
      → client_for show_exchange exchange r ≡ ok client
  unfolding client_for
  client_for_lem exchange r h = rw (h, client_for) refl

  cancel_known :
      (internal : Text) (symbol : Symbol) (r : Router S D) (t : S) (q : RoutedOrder)
      (client : ExecutionClient S D)
      → get internal r.state ≡ some q
      → lookup q.exchange r.routes ≡ some client
      → cancel_order show_exchange internal symbol r t
        ≡ client.cancel_order q.external_order_id q.symbol t
  unfolding cancel_order translate_internal
  cancel_known internal symbol r t q client known at =
      ground (arith, known, client_for_lem q.exchange r at)

  module _ (drawn : Text) (request : OrderRequest D) (r : Router S D) (s s' : S)
      (client : ExecutionClient S D) (answer : Order D)
      (specified : is_specified request.symbol.exchange ≡ true)
      (at_exchange : lookup request.symbol.exchange r.routes ≡ some client)
      (asked : client.place_order (outbound drawn request) s ≡ (ok answer, s')) where
    abbrev after_place : RouteState
    after_place = insert_route drawn (placed request answer) r.state

    placed_known : get drawn after_place ≡ some (placed request answer)
    placed_known =
        get-insert_route drawn drawn (placed request answer) r.state
        ∙ rw ((same_text_iff drawn drawn).1 refl) refl

    place_order_lem : place_order show_exchange drawn request r s ≡ (
      ok (record answer { id = drawn; request = request }),
      record r { state = after_place },
      s',
    )
    unfolding place_order
    place_order_lem =
        ground (arith, specified, client_for_lem request.symbol.exchange r at_exchange, asked)

    abbrev taken : Router S D
    taken = (place_order show_exchange drawn request r s).1

    taken_known : (get drawn taken.state ≡ some (placed request answer)) × (taken.routes ≡ r.routes)
    taken_known = (
      ap (λ x. get drawn x.1.state) place_order_lem ∙ placed_known,
      ap (λ x. x.1.routes) place_order_lem,
    )

    taken_found :
        (external : Text)
        → external ≡ answer.id
        → lookup_external_order request.symbol.exchange external taken.state ≡ some drawn
    taken_found external same =
        let pair : ExchangeId × Text = (request.symbol.exchange, external) in
        let own : ExchangeId × Text = (request.symbol.exchange, answer.id) in
        let met : same_pair pair own ≡ true =
          (same_pair_iff pair own).1 (ap (λ x. (request.symbol.exchange, x)) same) in
        ap (λ x. lookup_external_order request.symbol.exchange external x.1.state) place_order_lem
        ∙ lookup-insert_route request.symbol.exchange external drawn (placed request answer) r.state
        ∙ rw met refl

    -- After an order was placed that the client of its exchange took, whatever the router records and
    -- moves, cancelling the drawn identifier is the cancellation at the same client, under the symbol of
    -- the request, of the identifier that the exchange gave the order, at first or by its last move. A
    -- fill that the exchange reports right after the placement, under its identifier of the order, is
    -- passed on under the drawn identifier and the symbol of the request.
    pub cancel_routed :
        (later : RouteState) (u : Reach taken.state later) (symbol : Symbol) (t : S) (f : Fill D)
        → f.order_id ≡ answer.id
        → (cancel_order show_exchange drawn symbol (record taken { state = later }) t
            ≡ client.cancel_order (external_after drawn answer.id u) request.symbol t)
          × (normalize_fill_event request.symbol.exchange f taken.state
              ≡ some (record f { order_id = drawn; symbol = request.symbol }))
    cancel_routed later u symbol t f same =
        let (now, known, at, under, external) =
          Reach-external drawn (placed request answer) u taken_known.0 in
        (
          cancel_known drawn symbol (record taken { state = later }) t now client known
                (ap (λ x. lookup x taken.routes) at
                  ∙ ap (lookup request.symbol.exchange) taken_known.1
                  ∙ at_exchange)
              ∙ ap (λ x. client.cancel_order x now.symbol t) external
              ∙ ap (λ x. client.cancel_order (external_after drawn answer.id u) x t) under,
          fill_known request.symbol.exchange drawn f taken.state (placed request answer)
              (taken_found f.order_id same) taken_known.0,
        )

  module _ (request : OrderUpdateRequest D) (r : Router S D) (s s' : S) (q : RoutedOrder)
      (client : ExecutionClient S D) (answer : Order D)
      (known : get request.order_id r.state ≡ some q)
      (at_exchange : lookup q.exchange r.routes ≡ some client)
      (asked : client.amend_order
          (record request { order_id = q.external_order_id; symbol = q.symbol })
          s
        ≡ (ok answer, s')) where
    -- the route after the amendment, which follows the identifier that the exchange answers with
    abbrev followed : RoutedOrder
    followed = record q { external_order_id = answer.id }

    abbrev after_amend : Router S D
    after_amend = (amend_order show_exchange request r s).1

    amend_order_lem : amend_order show_exchange request r s ≡ (
      ok (renamed request.order_id q.original_client_id answer),
      (if same_text answer.id q.external_order_id
          then r
          else record r { state = insert_route request.order_id followed r.state }),
      s',
    )
    unfolding amend_order translate_internal
    amend_order_lem = ground (arith, known, client_for_lem q.exchange r at_exchange, asked)

    amend_known :
        (get request.order_id after_amend.state ≡ some followed) × (after_amend.routes ≡ r.routes)
    amend_known = elim (Bool-cases (same_text answer.id q.external_order_id)) [
      | inl same ↦
          let stays : after_amend ≡ r = ap (λ x. x.1) amend_order_lem ∙ rw same refl in
          let equal = (same_text_iff answer.id q.external_order_id).0 same in
          (
            ap (λ (x : Router S D). get request.order_id x.state) stays
                ∙ known
                ∙ ap (λ x. some (record q { external_order_id = x })) (sym equal),
            ap (λ (x : Router S D). x.routes) stays,
          )
      | inr other ↦
          let moves : after_amend
              ≡ record r { state = insert_route request.order_id followed r.state } =
            ap (λ x. x.1) amend_order_lem ∙ rw other refl in
          (
            ap (λ (x : Router S D). get request.order_id x.state) moves
                ∙ get-insert_route request.order_id request.order_id followed r.state
                ∙ rw ((same_text_iff request.order_id request.order_id).1 refl) refl,
            ap (λ (x : Router S D). x.routes) moves,
          )
    ]

    -- An amendment that the exchange takes comes back under the identifier of the router and with the
    -- client identifier that the order was placed with; from then on that identifier cancels the order
    -- under the identifier that the exchange answered with.
    pub amend_followed :
        (symbol : Symbol) (t : S)
        → ((amend_order show_exchange request r s).0
            ≡ ok (renamed request.order_id q.original_client_id answer))
          × (cancel_order show_exchange request.order_id symbol after_amend t
              ≡ client.cancel_order answer.id q.symbol t)
    amend_followed symbol t = (
      ap (λ x. x.0) amend_order_lem,
      cancel_known request.order_id symbol after_amend t followed client amend_known.0
          (ap (lookup q.exchange) amend_known.1 ∙ at_exchange),
    )
