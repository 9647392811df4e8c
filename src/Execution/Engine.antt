-- ===== src/Execution/Engine.antt =====
-- tesser-execution/src/lib.rs: `ExecutionEngine`. The broker behind `ExecutionClient` answers each
-- request by the requests that it had before; the state is the list of those, the latest first.
pub mod Sent
pub mod Protection
use tesser.Prelude.{Option, none, some, List, ◌∷◌, ◌++◌, if◌then◌else◌}
use tesser.Prelude.Result.{Result, ok, err}
use tesser.Prelude.Bytes.{codes}
use tesser.Decimal.{Decimal, nought, ◌≤?◌}
use tesser.Core.Ids.{Symbol}
use tesser.Core.Types.{
  Text, Uuid, Side, buy, sell, SignalKind, enter_long, exit_long, enter_short, exit_short, flatten,
  market, stop_market, OrderRequest, Order, Signal,
}
use tesser.Broker.{BrokerError, invalid_request, other}
use tesser.Execution.Risk.{RiskContext, RiskError, Checked}
use tesser.Execution.Sizing.{Sizer, determine_quantity}

module _ (D : Type 0) where
  abbrev pub Requests : Type 0
  Requests = List (OrderRequest D)

  abbrev pub Client : Type 0
  Client = Requests → OrderRequest D → Result BrokerError (Order D)

  abbrev pub RiskChecker : Type 0
  RiskChecker = OrderRequest D → RiskContext D → Checked D

module _ {D : Type 0} where
  unfoldable pub build_request : Symbol → Side → D → Option Text → OrderRequest D
  build_request symbol side qty client_order_id = record {
    symbol = symbol;
    side = side;
    order_type = market;
    quantity = qty;
    price = none;
    trigger_price = none;
    time_in_force = none;
    client_order_id = client_order_id;
    take_profit = none;
    stop_loss = none;
    display_quantity = none;
  }

  -- the request of a stop-loss or take-profit order
  unfoldable pub stop_request : Symbol → Side → D → D → Text → OrderRequest D
  stop_request symbol side qty trigger client_order_id = record {
    symbol = symbol;
    side = side;
    order_type = stop_market;
    quantity = qty;
    price = none;
    trigger_price = some trigger;
    time_in_force = none;
    client_order_id = some client_order_id;
    take_profit = none;
    stop_loss = none;
    display_quantity = none;
  }

-- the side of the order that `handle_signal` sends, and that of the stops behind it
abbrev pub entry_side : SignalKind → Side
entry_side enter_long = buy
entry_side exit_long = sell
entry_side flatten = sell
entry_side enter_short = sell
entry_side exit_short = buy

abbrev pub stop_side : SignalKind → Option Side
stop_side enter_long = some sell
stop_side exit_short = some sell
stop_side enter_short = some buy
stop_side exit_long = some buy
stop_side flatten = none

module _ {D : Type 0} (show : Uuid → Text) where
  unfoldable pub client_order_id : Signal D → Text
  client_order_id s = elim s.group_id [
    | some group ↦ show s.id ++ (codes "|grp:" ++ show group)
    | none ↦ show s.id
  ]

-- `show` and `render` are the `Display` of an identifier and of a risk error.
module _ {D : Type 0} ⦃d : Decimal D⦄ (show : Uuid → Text) (render : RiskError D → Text)
    (client : Client D) (risk : RiskChecker D) where
  unfoldable pub send_order :
      OrderRequest D → RiskContext D → Requests D → Result BrokerError (Order D) × Requests D
  send_order r ctx sent = elim (risk r ctx) [
    | err e ↦ (err (invalid_request (render e)), sent)
    | ok _ ↦ (client sent r, r ∷ sent)
  ]

  -- A stop that is asked for is sent, and an error is only logged.
  unfoldable pub send_stop :
      Option D → Symbol → Side → D → Text → RiskContext D → Requests D → Requests D
  send_stop none symbol side qty id ctx sent = sent
  send_stop (some trigger) symbol side qty id ctx sent =
      (send_order (stop_request symbol side qty trigger id) ctx sent).1

  unfoldable pub send_stops : Signal D → D → RiskContext D → Requests D → Requests D
  send_stops s qty ctx sent = elim (stop_side s.kind) [
    | none ↦ sent
    | some side ↦
        send_stop s.take_profit s.symbol side qty (show s.id ++ codes "-tp") ctx
          (send_stop s.stop_loss s.symbol side qty (show s.id ++ codes "-sl") ctx sent)
  ]

  -- the entry order of a signal, and the stops once the broker has taken it
  unfoldable pub place :
      Signal D → D → RiskContext D → Requests D → Result BrokerError (Option (Order D)) × Requests D
  place s qty ctx sent =
      let request =
        build_request s.symbol (entry_side s.kind) qty (some (client_order_id show s)) in
      let (reply, sent') = send_order request ctx sent in
      elim reply [
        | err e ↦ (err e, sent')
        | ok order ↦ (ok (some order), send_stops s qty ctx sent')
      ]

  unfoldable pub handle_signal :
      Sizer D
      → Signal D
      → RiskContext D
      → Requests D
      → Result BrokerError (Option (Order D)) × Requests D
  handle_signal sizer s ctx sent = elim (determine_quantity sizer s ctx) [
    | err _ ↦ (err (other (codes "failed to determine order size")), sent)
    | ok qty ↦ if qty ≤? nought then (ok none, sent) else place s qty ctx sent
  ]
