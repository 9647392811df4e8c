-- ===== src/Broker/Router/Tests.antt =====
-- A router over an exchange that counts its orders, and the theorems about it.
use tesser.Prelude.{ℕ, suc, ◌≡◌, refl, true, none, some, [], ◌∷◌}
use tesser.Prelude.Int.{pos}
use tesser.Prelude.Result.{ok}
use tesser.Prelude.Bytes.{codes}
use tesser.Core.Ids.{ExchangeId, Symbol}
use tesser.Core.Types.{Text, buy, market, accepted, OrderRequest, OrderUpdateRequest, Order, Fill}
use tesser.Broker.{ExecutionClient}
use tesser.Broker.Router.{
  Router, RouteState, empty_state, insert_route, get, place_order, cancel_order,
  normalize_external_order, normalize_fill_event, outbound_client_id, client_for,
}
use tesser.Broker.Router.Names.{extract_group_suffix}
use tesser.Broker.Router.Reach.{Reach, here, next, recorded, moved}
use tesser.Broker.Router.Calls.{placed, outbound, cancel_routed}
use tesser.Broker.Router.Events.{Named, fills-Named, restart_forgets}

abbrev show_exchange : ExchangeId → Text
show_exchange e = e ∷ []

abbrev pair : Symbol
pair = record { exchange = 1; market_id = 7 }

abbrev request : OrderRequest ℕ
request = record {
  symbol = pair;
  side = buy;
  order_type = market;
  quantity = 5;
  price = none;
  trigger_price = none;
  time_in_force = none;
  client_order_id = some (codes "twap-1|grp:pair9876543|x");
  take_profit = none;
  stop_loss = none;
  display_quantity = none;
}

-- the order number `n` of the exchange
abbrev answer : ℕ → OrderRequest ℕ → Order ℕ
answer n r = record {
  id = n ∷ [];
  request = r;
  status = accepted;
  filled_quantity = 0;
  avg_fill_price = none;
  created_at = pos 0;
  updated_at = pos 0;
}

-- The exchange numbers its orders, and gives an amended order a new number.
abbrev counting : ExecutionClient ℕ ℕ
counting = record {
  info = record { name = codes "one"; markets = []; supports_testnet = true };
  place_order = λ r n. (ok (answer n r), suc n);
  cancel_order = λ id symbol n. (ok tt, n);
  amend_order = λ u n. (ok (answer n request), suc n);
  list_open_orders = λ symbol n. (ok (answer 0 request ∷ []), n);
  account_balances = λ n. (ok [], n);
  positions = λ symbols n. (ok [], n);
  list_instruments = λ category n. (ok [], n);
}

abbrev router : Router ℕ ℕ
router = record { routes = (1, counting) ∷ []; info = counting.info; state = empty_state }

abbrev one_order : RouteState
one_order = record {
  by_internal = ((8 ∷ []), placed request (answer 0 request)) ∷ [];
  by_exchange_order = ((1, (0 ∷ [])), (8 ∷ [])) ∷ [];
}

-- the exchange sees the namespace, the group in capitals and eight letters of it, and the identifier
outbound_id : outbound_client_id request.client_order_id (codes "id") ≡ codes "TESSER-PAIR9876-id"
unfolding extract_group_suffix
outbound_id = refl

after_place :
    (place_order show_exchange (8 ∷ []) request router 0).1 ≡ record router { state = one_order }
unfolding place_order client_for insert_route
after_place = refl

one_order_reached : Reach empty_state one_order
unfolding insert_route
one_order_reached = next here (recorded (8 ∷ []) (placed request (answer 0 request)) refl refl)

-- what the exchange answers to it
abbrev taken : Order ℕ
taken = answer 0 (outbound (8 ∷ []) request)

abbrev trade : Fill ℕ
trade = record {
  order_id = 0 ∷ [];
  symbol = record { exchange = 0; market_id = 0 };
  side = buy;
  fill_price = 7;
  fill_quantity = 5;
  fee = none;
  fee_asset = none;
  timestamp = pos 0;
}

abbrev placed_once : Router ℕ ℕ
placed_once = (place_order show_exchange (8 ∷ []) request router 0).1

known_once : get (8 ∷ []) placed_once.state ≡ some (placed request taken)
unfolding place_order client_for insert_route
known_once = refl

-- the exchange gives the order the identifier `3` afterwards
abbrev renumbered : RouteState
renumbered =
    insert_route (8 ∷ []) (record (placed request taken) { external_order_id = 3 ∷ [] })
      placed_once.state

abbrev renumbering : Reach placed_once.state renumbered
renumbering = next here (moved (8 ∷ []) (placed request taken) (3 ∷ []) known_once refl)

cancel_routed_example :
    (cancel_order show_exchange (8 ∷ []) pair (record placed_once { state = renumbered }) 1
      ≡ counting.cancel_order (3 ∷ []) pair 1)
    × (normalize_fill_event 1 trade placed_once.state
        ≡ some (record trade { order_id = 8 ∷ []; symbol = pair }))
cancel_routed_example =
    cancel_routed show_exchange (8 ∷ []) request router 0 1 counting taken refl refl refl renumbered
      renumbering pair 1 trade refl

abbrev running : Router ℕ ℕ
running = record router { state = one_order }

abbrev update : OrderUpdateRequest ℕ
update = record {
  order_id = 8 ∷ [];
  symbol = pair;
  side = buy;
  new_price = some 7;
  new_quantity = none;
}

abbrev drawn : ℕ → Text
drawn n = n ∷ 9 ∷ []

trade_named :
    normalize_fill_event 1 trade one_order
    ≡ some (record trade { order_id = 8 ∷ []; symbol = pair })
unfolding normalize_fill_event
trade_named = refl

fills-Named_example : Named 1 one_order_reached trade (normalize_fill_event 1 trade one_order)
fills-Named_example = fills-Named 1 trade one_order one_order_reached

restart_forgets_example :
    (normalize_external_order 1 (9 ∷ []) taken empty_state).0.request.client_order_id ≡ none
restart_forgets_example = restart_forgets 1 (9 ∷ []) (8 ∷ []) request.client_order_id taken refl
