-- ===== src/Execution/Orchestrator/Panic.antt =====
-- tesser-execution/src/orchestrator.rs: a leg that fails, and the orders that unwind the others. The
-- state is that of the broker, as in `Engine`, with the events that the panic observer is told.
pub mod Closes
pub mod Fails
pub mod Once
use tesser.Prelude.{Bool, true, false, Option, none, some, List, [], ◌∷◌, ◌++◌, if◌then◌else◌}
use tesser.Prelude.HashMap.{HashMap, lookup, insert, remove, modify}
use tesser.Prelude.Key.{nat_key}
use tesser.Prelude.Bytes.{codes, text_key}
use tesser.Prelude.Result.{Result, ok, err}
use tesser.Decimal.{Decimal, nought, one, of_ℕ, ◌⊕◌, ◌⊖◌, ◌⊗◌, ◌⊘◌, ◌≤?◌, max}
use tesser.Core.Ids.{Symbol, symbol_key}
use tesser.Core.Types.{
  Text, Uuid, Side, buy, sell, inverse, OrderType, market, limit, TimeInForce, immediate_or_cancel,
  OrderRequest, Order,
}
use tesser.Execution.Risk.{RiskContext, RiskError}
use tesser.Execution.Engine.{Client, RiskChecker, Requests, send_order}
use tesser.Broker.{BrokerError}
use tesser.Execution.Orchestrator.{
  PanicCloseConfig, at_market, aggressive, ExecutionGroupLeg, failed, ExecutionGroupState, Groups,
  is_finished, panic_actions, purge_group_orders,
}

-- the arguments of `on_group_event`
pub record GroupEvent (D : Type 0) : Type 0 where
  pub group_id : Uuid
  pub symbol : Symbol
  pub quantity : D
  pub reason : Text

-- what a failed leg changes: the groups, the requests sent, the events told, the latest first
pub record PanicState (D : Type 0) : Type 0 where
  pub groups : Groups D
  pub sent : Requests D
  pub told : List (GroupEvent D)

module _ {D : Type 0} ⦃d : Decimal D⦄ where
  unfoldable pub panic_limit_price : PanicCloseConfig D → Side → RiskContext D → Option D
  panic_limit_price config side ctx =
      let offset_fraction : D = max (max config.limit_offset_bps nought ⊘ of_ℕ 10000) nought in
      let multiplier : D = elim side [
        | buy ↦ one ⊕ offset_fraction
        | sell ↦ one ⊖ offset_fraction
      ] in
      if ctx.last_price ≤? nought
      then none
      else if multiplier ≤? nought
      then none
      else some (ctx.last_price ⊗ multiplier)

  unfoldable pub panic_order_parameters :
      PanicCloseConfig D → Side → RiskContext D → OrderType × Option D × Option TimeInForce
  panic_order_parameters config side ctx = elim config.mode [
    | at_market ↦ (market, none, none)
    | aggressive ↦ elim (panic_limit_price config side ctx) [
      | some price ↦ (limit, some price, some immediate_or_cancel)
      | none ↦ (market, none, none)
    ]
  ]

  -- the request that follows a limit order that is refused
  abbrev pub at_any_price : OrderRequest D → OrderRequest D
  at_any_price r = record r { order_type = market; price = none; time_in_force = none }

  abbrev pub fail_leg : ExecutionGroupLeg D → ExecutionGroupLeg D
  fail_leg leg = record leg { status = failed }

  unfoldable pub fail_group : Symbol → ExecutionGroupState D → ExecutionGroupState D
  fail_group symbol g = record g { legs = modify symbol fail_leg g.legs }

  unfoldable pub notify_panic : Uuid → Symbol → D → Text → PanicState D → PanicState D
  notify_panic group_id symbol quantity reason p = record p {
    told =
        record { group_id = group_id; symbol = symbol; quantity = quantity; reason = reason }
        ∷ p.told;
  }

abbrev pub is_limit : OrderType → Bool
is_limit limit = true
is_limit _ = false

module _ {D : Type 0} ⦃d : Decimal D⦄ (show : Uuid → Text) where
  unfoldable pub panic_request :
      Uuid → PanicCloseConfig D → Symbol → Side → D → RiskContext D → OrderRequest D
  panic_request group_id config symbol original_side qty ctx =
      let (order_type, price, time_in_force) =
        panic_order_parameters config (inverse original_side) ctx in
      record {
        symbol = symbol;
        side = inverse original_side;
        order_type = order_type;
        quantity = qty;
        price = price;
        trigger_price = none;
        time_in_force = time_in_force;
        client_order_id = some (codes "panic-" ++ show group_id);
        take_profit = none;
        stop_loss = none;
        display_quantity = none;
      }

module _ {D : Type 0} ⦃d : Decimal D⦄ (show : Uuid → Text) (render : RiskError D → Text)
    (client : Client D) (risk : RiskChecker D) where
  -- the request, and once more at the market if a limit order is refused
  unfoldable pub send_panic :
      OrderRequest D → RiskContext D → Requests D → Result BrokerError (Order D) × Requests D
  send_panic r ctx sent =
      let (reply, sent') = send_order show render client risk r ctx sent in
      let again = send_order show render client risk (at_any_price r) ctx sent' in
      elim reply [
        | ok order ↦ (ok order, sent')
        | err e ↦ if is_limit r.order_type then again else (err e, sent')
      ]

  -- `contexts` is the cache of risk contexts. There is a panic observer here; without one the events
  -- are dropped.
  module _ (contexts : HashMap Symbol (RiskContext D)) where
    -- one round of the loop of `execute_panic_actions`
    unfoldable pub close_leg :
        Uuid → Text → PanicCloseConfig D → Symbol × Side × D → PanicState D → PanicState D
    close_leg group_id reason config (symbol, original_side, qty) p =
        if qty ≤? nought then p else elim (lookup symbol contexts) [
          | none ↦ p
          | some ctx ↦
              let (reply, sent) =
                send_panic (panic_request show group_id config symbol original_side qty ctx) ctx
                  p.sent in
              let p' = record p { sent = sent } in
              elim reply [ err _ ↦ p' | ok _ ↦ notify_panic group_id symbol qty reason p' ]
        ]

    unfoldable pub execute_panic_actions :
        Uuid → Text → List (Symbol × Side × D) → PanicCloseConfig D → PanicState D → PanicState D
    execute_panic_actions group_id reason [] config p = p
    execute_panic_actions group_id reason (action ∷ actions) config p =
        execute_panic_actions group_id reason actions config
          (close_leg group_id reason config action p)

    unfoldable pub fail_group_leg : Uuid → Symbol → Text → PanicState D → PanicState D
    fail_group_leg group_id symbol reason p =
        let o = p.groups in
        elim (lookup group_id o.execution_groups) [
          | none ↦ p
          | some g ↦
              let (g', actions) = panic_actions (fail_group symbol g) in
              let kept = record o { execution_groups = insert group_id g' o.execution_groups } in
              let dropped = record o { execution_groups = remove group_id o.execution_groups } in
              elim actions [
                | some legs ↦
                    let closed =
                      execute_panic_actions group_id reason legs g.panic_config
                        (record p { groups = kept }) in
                    record closed { groups = purge_group_orders group_id closed.groups }
                | none ↦
                    notify_panic group_id symbol nought reason
                      (record p { groups = if is_finished g' then dropped else kept })
              ]
        ]

    unfoldable pub fail_group_leg_by_order : Text → Text → PanicState D → PanicState D
    fail_group_leg_by_order order_id reason p =
        let o = p.groups in
        let unmapped = record o { group_order_mapping = remove order_id o.group_order_mapping } in
        elim (lookup order_id o.group_order_mapping) [
          | none ↦ p
          | some (group_id, symbol) ↦
              fail_group_leg group_id symbol reason (record p { groups = unmapped })
        ]
