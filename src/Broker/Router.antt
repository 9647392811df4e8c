-- ===== src/Broker/Router.antt =====
-- tesser-broker/src/router.rs: `RouterExecutionClient`, which hands orders to the client of their
-- exchange and gives them identifiers of its own. A call has the identifiers that it draws as arguments.
pub mod Names
pub mod Reach
pub mod History
pub mod Calls
pub mod Events
mod Tests
use tesser.Prelude.{
  ℕ, suc, Bool, true, ◌&&◌, Option, none, some, List, [], ◌∷◌, ◌++◌, if◌then◌else◌, length,
}
use tesser.Prelude.Result.{Result, ok, err}
use tesser.Prelude.Key.{pair_key, nat_key}
use tesser.Prelude.HashMap.{HashMap, lookup, insert, values}
use tesser.Prelude.Bytes.{codes, same_text, text_key, show_u32}
use tesser.Core.Ids.{ExchangeId, Symbol, is_specified}
use tesser.Core.Types.{
  Text, OrderRequest, OrderUpdateRequest, Order, Fill, AccountBalance, Position, Instrument,
}
use tesser.Broker.{BrokerError, invalid_request, BrokerInfo, ExecutionClient, Call}
use Names.{client_namespace, is_router_namespace, extract_group_suffix, sort_texts, dedup}

pub record RoutedOrder : Type 0 where
  pub exchange : ExchangeId
  pub symbol : Symbol
  pub external_order_id : Text
  pub original_client_id : Option Text

pub record RouteState : Type 0 where
  pub by_internal : HashMap Text RoutedOrder
  pub by_exchange_order : HashMap (ExchangeId × Text) Text

abbrev pub empty_state : RouteState
empty_state = record { by_internal = []; by_exchange_order = [] }

-- `RouteState::insert`, of an internal identifier and what it stands for
unfoldable pub insert_route : Text → RoutedOrder → RouteState → RouteState
insert_route internal r s = record {
  by_internal = insert internal r s.by_internal;
  by_exchange_order = insert (r.exchange, r.external_order_id) internal s.by_exchange_order;
}

abbrev pub get : Text → RouteState → Option RoutedOrder
get internal s = lookup internal s.by_internal

abbrev pub lookup_external_order : ExchangeId → Text → RouteState → Option Text
lookup_external_order exchange external_id s = lookup (exchange, external_id) s.by_exchange_order

unfoldable pub translate_internal : Text → RouteState → Result BrokerError RoutedOrder
translate_internal order_id s = elim (get order_id s) [
  | some r ↦ ok r
  | none ↦ err (invalid_request (codes "unknown order id " ++ order_id))
]

-- the client identifier of an order that the router did not send
abbrev pub foreign_client_id : Option Text → Option Text
foreign_client_id none = none
foreign_client_id (some value) = if is_router_namespace value then none else some value

abbrev pub group_suffix : Option Text → Option Text
group_suffix none = none
group_suffix (some value) = extract_group_suffix value

-- the client identifier that the exchange is given
abbrev pub outbound_client_id : Option Text → Text → Text
outbound_client_id client_id internal = elim (group_suffix client_id) [
  | some tag ↦ client_namespace ++ codes "-" ++ tag ++ codes "-" ++ internal
  | none ↦ client_namespace ++ codes "-" ++ internal
]

module _ {D : Type 0} where
  -- the order under an identifier of the router, and the client identifier that it had
  abbrev pub renamed : Text → Option Text → Order D → Order D
  renamed internal client_id o = record o {
    id = internal;
    request = record o.request { client_order_id = client_id };
  }

  unfoldable pub normalize_external_order :
      ExchangeId → Text → Order D → RouteState → Order D × RouteState
  normalize_external_order exchange drawn o s = elim (lookup_external_order exchange o.id s) [
    | some existing ↦ (
      elim (get existing s) [ none ↦ o | some entry ↦ renamed existing entry.original_client_id o ],
      s,
    )
    | none ↦
        let client_id = foreign_client_id o.request.client_order_id in
        (
          renamed drawn client_id o,
          insert_route drawn
              (record {
                exchange = exchange;
                symbol = o.request.symbol;
                external_order_id = o.id;
                original_client_id = client_id;
              })
              s,
        )
  ]

  unfoldable pub normalize_fill_event : ExchangeId → Fill D → RouteState → Option (Fill D)
  normalize_fill_event exchange f s = elim (lookup_external_order exchange f.order_id s) [
    | none ↦ none
    | some internal ↦ some (elim (get internal s) [
      | none ↦ f
      | some entry ↦ record f { order_id = internal; symbol = entry.symbol }
    ])
  ]

  -- the loop of `list_open_orders`, with an identifier drawn for each order
  abbrev pub normalize_all :
      ExchangeId → (ℕ → Text) → List (Order D) → RouteState → List (Order D) × RouteState
  normalize_all exchange drawn [] s = ([], s)
  normalize_all exchange drawn (o ∷ orders) s =
      let (first, s') = normalize_external_order exchange (drawn 0) o s in
      let (rest, s'') = normalize_all exchange (λ n. drawn (suc n)) orders s' in (first ∷ rest, s'')

module _ (S D : Type 0) where
  pub record Router : Type 0 where
    pub routes : HashMap ExchangeId (ExecutionClient S D)
    pub info : BrokerInfo
    pub state : RouteState

module _ {S D : Type 0} (show_exchange : ExchangeId → Text) where
  unfoldable pub client_for : ExchangeId → Router S D → Result BrokerError (ExecutionClient S D)
  client_for exchange r = elim (lookup exchange r.routes) [
    | some c ↦ ok c
    | none ↦ err (
        invalid_request
          (codes "no execution client registered for exchange " ++ show_exchange exchange))
  ]

  unfoldable pub place_order :
      Text → OrderRequest D → Router S D → S → Result BrokerError (Order D) × Router S D × S
  place_order drawn request r s =
      let exchange = request.symbol.exchange in
      if is_specified exchange
      then elim (client_for exchange r) [
        | err e ↦ (err e, r, s)
        | ok client ↦
            let outbound = record request {
              client_order_id = some (outbound_client_id request.client_order_id drawn);
            } in
            let (answer, s') = client.place_order outbound s in
            elim answer [
              | err e ↦ (err e, r, s')
              | ok o ↦ (
                ok (record o { id = drawn; request = request }),
                record r {
                  state =
                      insert_route drawn
                        (record {
                          exchange = exchange;
                          symbol = request.symbol;
                          external_order_id = o.id;
                          original_client_id = request.client_order_id;
                        })
                        r.state;
                },
                s',
              )
            ]
      ]
      else (err (invalid_request (codes "order symbol must specify exchange")), r, s)

  unfoldable pub cancel_order : Text → Symbol → Router S D → S → Result BrokerError (Unit {0}) × S
  cancel_order order_id symbol r s = elim (translate_internal order_id r.state) [
    | err e ↦ (err e, s)
    | ok routed ↦ elim (client_for routed.exchange r) [
      | err e ↦ (err e, s)
      | ok client ↦ client.cancel_order routed.external_order_id routed.symbol s
    ]
  ]

  unfoldable pub amend_order :
      OrderUpdateRequest D → Router S D → S → Result BrokerError (Order D) × Router S D × S
  amend_order request r s = elim (translate_internal request.order_id r.state) [
    | err e ↦ (err e, r, s)
    | ok routed ↦ elim (client_for routed.exchange r) [
      | err e ↦ (err e, r, s)
      | ok client ↦
          let outbound = record request {
            order_id = routed.external_order_id;
            symbol = routed.symbol;
          } in
          let (answer, s') = client.amend_order outbound s in
          elim answer [
            | err e ↦ (err e, r, s')
            | ok o ↦ (
              ok (renamed request.order_id routed.original_client_id o),
              (if same_text o.id routed.external_order_id then r else record r {
                state =
                    insert_route request.order_id (record routed { external_order_id = o.id })
                      r.state;
              }),
              s',
            )
          ]
    ]
  ]

  unfoldable pub list_open_orders :
      (ℕ → Text) → Symbol → Router S D → S → Result BrokerError (List (Order D)) × Router S D × S
  list_open_orders drawn symbol r s = elim (client_for symbol.exchange r) [
    | err e ↦ (err e, r, s)
    | ok client ↦
        let (answer, s') = client.list_open_orders symbol s in
        elim answer [
          | err e ↦ (err e, r, s')
          | ok orders ↦
              let (normalized, state) = normalize_all symbol.exchange drawn orders r.state in
              (ok normalized, record r { state = state }, s')
        ]
  ]

module _ {S D : Type 0} where
  -- the loops over all clients, which the first error ends
  abbrev pub gather :
      {A : Type 0}
      → (ExecutionClient S D → Call S (List A))
      → HashMap ExchangeId (ExecutionClient S D)
      → Call S (List A)
  gather ask [] s = (ok [], s)
  gather ask ((_, client) ∷ routes) s =
      let (answer, s') = ask client s in
      let (rest, s'') = gather ask routes s' in
      elim answer [
        | err e ↦ (err e, s')
        | ok found ↦ (elim rest [ err e ↦ err e | ok others ↦ ok (found ++ others) ], s'')
      ]

  unfoldable pub account_balances : Router S D → Call S (List (AccountBalance D))
  account_balances r = gather (λ (c : ExecutionClient S D). c.account_balances) r.routes

  unfoldable pub positions : Option (List Symbol) → Router S D → Call S (List (Position D))
  positions symbols r = gather (λ (c : ExecutionClient S D). c.positions symbols) r.routes

  unfoldable pub list_instruments : Text → Router S D → Call S (List (Instrument D))
  list_instruments category r =
      gather (λ (c : ExecutionClient S D). c.list_instruments category) r.routes

  abbrev all_markets : List (ExecutionClient S D) → List Text
  all_markets [] = []
  all_markets (c ∷ clients) = c.info.markets ++ all_markets clients

  abbrev all_testnet : List (ExecutionClient S D) → Bool
  all_testnet [] = true
  all_testnet (c ∷ clients) = c.info.supports_testnet && all_testnet clients

  unfoldable pub aggregate_info : HashMap ExchangeId (ExecutionClient S D) → BrokerInfo
  aggregate_info routes = record {
    name = codes "router-" ++ show_u32 (length routes) ++ codes "-venues";
    markets = dedup (sort_texts (all_markets (values routes)));
    supports_testnet = all_testnet (values routes);
  }

  -- `none` is the panic for want of a route
  unfoldable pub new : HashMap ExchangeId (ExecutionClient S D) → Option (Router S D)
  new [] = none
  new (route ∷ routes) = some (record {
    routes = route ∷ routes;
    info = aggregate_info (route ∷ routes);
    state = empty_state;
  })
