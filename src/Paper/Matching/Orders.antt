-- ===== src/Paper/Matching/Orders.antt =====
-- connectors/tesser-paper/src/lib.rs: how the matching engine takes, cancels and amends orders.
pub mod Settled
use tesser.Prelude.{
  ℕ, suc, Bool, false, not, ◌&&◌, Option, none, some, List, [], ◌∷◌, ◌++◌, if◌then◌else◌, map,
  unwrap_or,
}
use tesser.Prelude.Result.{Result, ok, err}
use tesser.Prelude.HashMap.{lookup, insert, remove}
use tesser.Prelude.Bytes.{codes, text_key}
use tesser.Decimal.{Decimal, nought, ◌⊖◌, ◌⊗◌, ◌⊘◌, ◌<?◌, ◌≤?◌, ◌=?◌, max, abs, is_zero}
use tesser.Core.Ids.{Symbol, same_symbol}
use tesser.Core.Types.{
  Text, Time, same_side, inverse, market, limit, stop_market, good_til_canceled, OrderStatus,
  pending_new, accepted, partially_filled, filled, OrderRequest, OrderUpdateRequest, Order, Fill,
}
use tesser.Core.Cash.{sum}
use tesser.Core.Book.{add_order, remove_order}
use tesser.Broker.{BrokerError, invalid_request, other}
use tesser.Paper.Conditional
use tesser.Paper.Conditional.{ConditionalOrderManager}
use tesser.Paper.Fees.{taker}
use tesser.Paper.Matching.{
  MatchingEngine, RestingOrder, no_latency, limit_crosses, simulated_now, activation_deadline,
  queue_ahead_for, take_all,
}
use tesser.Paper.Matching.Booking.{build_fill, apply_fill_accounting, compute_fee}

-- an identifier and a reading of the clock, which a new order gets
abbrev pub Stamp : Type 0
Stamp = Text × Time

-- what `spawn_attached_orders` draws
pub record Attached : Type 0 where
  pub take_profit : Stamp
  pub stop_loss : Stamp

-- what `place_order` draws and reads: for the order, for a stop order, at the start of resting without a
-- simulated clock, for each fill, and for the attached orders
pub record Draws : Type 0 where
  pub order : Stamp
  pub pending : Stamp
  pub wall : Time
  pub fill_time : ℕ → Time
  pub attached : Attached

module _ {D : Type 0} ⦃d : Decimal D⦄ where
  unfoldable pub build_pending_order : Stamp → OrderRequest D → Order D
  build_pending_order (id, now) request = record {
    id = id;
    request = request;
    status = pending_new;
    filled_quantity = nought;
    avg_fill_price = none;
    created_at = now;
    updated_at = now;
  }

  -- the stop order that takes an order off again
  abbrev pub exit_request : Order D → D → Text → OrderRequest D
  exit_request o price suffix = record {
    symbol = o.request.symbol;
    side = inverse o.request.side;
    order_type = stop_market;
    quantity = abs o.request.quantity;
    price = none;
    trigger_price = some price;
    time_in_force = some good_til_canceled;
    client_order_id = some (unwrap_or o.request.client_order_id o.id ++ suffix);
    take_profit = none;
    stop_loss = none;
    display_quantity = none;
  }

  abbrev pub enqueue_exit :
      Stamp → Order D → Option D → Text → ConditionalOrderManager D → ConditionalOrderManager D
  enqueue_exit stamp o none suffix m = m
  enqueue_exit stamp o (some price) suffix m =
      Conditional.push (build_pending_order stamp (exit_request o price suffix)) m

  unfoldable pub spawn_attached_orders : Attached → Order D → MatchingEngine D → MatchingEngine D
  spawn_attached_orders drawn o e = if abs o.request.quantity ≤? nought then e else record e {
    conditional_orders =
        enqueue_exit drawn.stop_loss o o.request.stop_loss (codes "-sl") (
          enqueue_exit drawn.take_profit o o.request.take_profit (codes "-tp")
            e.conditional_orders);
  }

  unfoldable pub match_market :
      OrderRequest D → MatchingEngine D → Result BrokerError (List (D × D) × D) × MatchingEngine D
  match_market request e =
      let (slices, depth) = take_all request.side request.quantity e.market_depth in
      (
        elim slices [
          | [] ↦ err (other (codes "insufficient market depth for matching engine"))
          | s ∷ rest ↦ ok (s ∷ rest, sum (map (λ p. p.1) (s ∷ rest)))
        ],
        record e { market_depth = depth },
      )

  unfoldable pub record_resting_order : Order D → D → Time → MatchingEngine D → MatchingEngine D
  record_resting_order o price activation_time e =
      let remaining = max (o.request.quantity ⊖ o.filled_quantity) nought in
      let active = no_latency e in
      let queued = active && (nought <? remaining) in
      let side = o.request.side in
      let entry : RestingOrder D = record {
        order = if active then record o { status = accepted; updated_at = activation_time } else o;
        remaining = remaining;
        price = price;
        initial_queue_position = if queued then queue_ahead_for side price nought e else nought;
        processed_volume = nought;
        activation_time = activation_time;
        cancel_after = none;
        active = active;
        original_quantity = o.request.quantity;
      } in
      record e {
        resting_depth =
            if queued then add_order side price remaining e.resting_depth else e.resting_depth;
        open_orders = insert o.id entry e.open_orders;
      }

  unfoldable pub cancel_order :
      Time → Text → Symbol → MatchingEngine D → Result BrokerError (Unit {0}) × MatchingEngine D
  cancel_order wall order_id symbol e = elim (lookup order_id e.open_orders) [
    | none ↦ (err (invalid_request (codes "order " ++ order_id ++ codes " not found")), e)
    | some r ↦
        if no_latency e
        then (
          ok tt,
          record e {
            open_orders = remove order_id e.open_orders;
            resting_depth =
                if r.active && (nought <? r.remaining)
                then remove_order r.order.request.side r.price r.remaining e.resting_depth
                else e.resting_depth;
          },
        )
        else (
          ok tt,
          record e {
            open_orders =
                insert order_id
                  (record r { cancel_after = some (activation_deadline (simulated_now wall e) e) })
                  e.open_orders;
          },
        )
  ]

  -- the status of an order by what is left of it and what is filled
  abbrev pub status_by : D → D → OrderStatus
  status_by remaining filled_quantity =
      if remaining ≤? nought
      then filled
      else if nought <? filled_quantity
      then partially_filled
      else accepted

  -- the first changes of `amend_order`, which an error does not take back: the order leaves the resting
  -- depth, and gets the new price
  abbrev pub unqueued : RestingOrder D → MatchingEngine D → MatchingEngine D
  unqueued r e = record e {
    resting_depth =
        if r.active && (nought <? r.remaining)
        then remove_order r.order.request.side r.price r.remaining e.resting_depth
        else e.resting_depth;
  }

  abbrev pub repriced : Option D → RestingOrder D → RestingOrder D
  repriced none r = r
  repriced (some price) r = record r {
    price = price;
    order = record r.order { request = record r.order.request { price = some price } };
  }

  -- the quantity changes, and the order queues up again
  abbrev pub resized : Option D → RestingOrder D → RestingOrder D
  resized none r = record r {
    remaining = max (r.order.request.quantity ⊖ r.order.filled_quantity) nought;
  }
  resized (some quantity) r = record r {
    order = record r.order { request = record r.order.request { quantity = quantity } };
    remaining = max (quantity ⊖ r.order.filled_quantity) nought;
    original_quantity = quantity;
  }

  abbrev pub restated : Time → RestingOrder D → RestingOrder D
  restated now r = record r {
    order = record r.order {
      status = status_by r.remaining r.order.filled_quantity;
      updated_at = now;
    };
  }

  abbrev pub requeued : Text → RestingOrder D → MatchingEngine D → MatchingEngine D
  requeued order_id r e =
      let side = r.order.request.side in
      if r.active && (nought <? r.remaining)
      then record e {
        open_orders =
            insert order_id
              (record r {
                initial_queue_position = queue_ahead_for side r.price nought e;
                processed_volume = nought;
              })
              e.open_orders;
        resting_depth = add_order side r.price r.remaining e.resting_depth;
      }
      else record e { open_orders = insert order_id r e.open_orders }

  abbrev pub below_filled : Option D → RestingOrder D → Bool
  below_filled none r = false
  below_filled (some quantity) r = quantity <? r.order.filled_quantity

  unfoldable pub amend_order :
      Time
      → OrderUpdateRequest D
      → MatchingEngine D
      → Result BrokerError (Order D) × MatchingEngine D
  amend_order now request e = elim (lookup request.order_id e.open_orders) [
    | none ↦ (err (invalid_request (codes "order " ++ request.order_id ++ codes " not found")), e)
    | some r ↦
        if not (same_symbol r.order.request.symbol request.symbol)
        then (err (invalid_request (codes "symbol mismatch for amend")), e)
        else if not (same_side r.order.request.side request.side)
        then (err (invalid_request (codes "side mismatch for amend")), e)
        else (let moved = repriced request.new_price r in
            let off = unqueued r e in
            if below_filled request.new_quantity r
            then (
              err (invalid_request (codes "new quantity below filled amount")),
              record off { open_orders = insert request.order_id moved off.open_orders },
            )
            else (let amended = restated now (resized request.new_quantity moved) in
                (ok amended.order, requeued request.order_id amended off)))
  ]

  unfoldable pub list_open_orders : MatchingEngine D → List (Order D)
  list_open_orders e = map (λ p. p.1.order) e.open_orders

module _ {D : Type 0} ⦃d : Decimal D⦄ (code : Symbol → Text) where
  -- the fills of the slices, booked one after the other
  abbrev pub book_slices :
      (ℕ → Time) → Order D → List (D × D) → MatchingEngine D → List (Fill D) × MatchingEngine D
  book_slices times o [] e = ([], e)
  book_slices times o ((price, qty) ∷ slices) e =
      let r = o.request in
      let fee = compute_fee code r.symbol r.side taker price qty e in
      let fill = build_fill o.id r.symbol r.side price qty fee (times 0) e in
      let (fills, e') = book_slices (λ n. times (suc n)) o slices (apply_fill_accounting fill e) in
      (fill ∷ fills, e')

  abbrev pub filled_by : List (D × D) → Order D → Order D
  filled_by slices o =
      let total = sum (map (λ p. p.1) slices) in
      let notional = sum (map (λ p. p.0 ⊗ p.1) slices) in
      record o {
        filled_quantity = total;
        avg_fill_price = if is_zero total then none else some (notional ⊘ total);
        status = if o.request.quantity =? total then filled else partially_filled;
      }

  unfoldable pub handle_immediate_fills :
      (ℕ → Time) → Attached → Order D → List (D × D) → MatchingEngine D → Order D × MatchingEngine D
  handle_immediate_fills times drawn o slices e =
      let done = filled_by slices o in
      let (fills, e') = book_slices times done slices e in
      let stored = record e' { fills = e'.fills ++ fills } in
      (
        done,
        if o.request.quantity =? sum (map (λ p. p.1) slices)
            then spawn_attached_orders drawn done stored
            else stored,
      )

  -- an order that is matched at once
  abbrev pub take_now :
      Draws → Order D → MatchingEngine D → Result BrokerError (Order D) × MatchingEngine D
  take_now draws o e =
      let (matched, e') = match_market o.request e in
      elim matched [
        | err x ↦ (err x, e')
        | ok (slices, _) ↦
            let (done, e'') = handle_immediate_fills draws.fill_time draws.attached o slices e' in
            (ok done, e'')
      ]

  unfoldable pub place_order :
      Draws → OrderRequest D → MatchingEngine D → Result BrokerError (Order D) × MatchingEngine D
  place_order draws request e =
      let o = build_pending_order draws.order request in
      elim request.order_type [
        | market ↦ take_now draws o e
        | limit ↦ elim request.price [
          | none ↦ (err (invalid_request (codes "limit order requires price")), e)
          | some limit_price ↦
              if limit_crosses request.side limit_price e
              then take_now draws o e
              else (let now = simulated_now draws.wall e in
                  let resting : Order D =
                    if no_latency e then record o { status = accepted; updated_at = now } else o in
                  (
                    ok resting,
                    record_resting_order resting limit_price (activation_deadline now e) e,
                  ))
        ]
        | stop_market ↦ elim request.trigger_price [
          | none ↦ (err (invalid_request (codes "stop-market order missing trigger price")), e)
          | some trigger_price ↦
              let pending =
                build_pending_order draws.pending
                  (record request { price = none; time_in_force = some good_til_canceled }) in
              (
                ok pending,
                record e { conditional_orders = Conditional.push pending e.conditional_orders },
              )
        ]
      ]
