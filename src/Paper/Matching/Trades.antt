-- ===== src/Paper/Matching/Trades.antt =====
-- connectors/tesser-paper/src/lib.rs: the clock of the matching engine, and the trades of the market that
-- fill its resting orders. The orders of a hash map are gone through in the order of its list.
pub mod Meet
pub mod Fair
pub mod Queue
use tesser.Prelude.{
  Bool, true, false, not, ◌&&◌, ◌||◌, Option, none, some, List, [], ◌∷◌, ◌++◌, if◌then◌else◌,
  unwrap_or,
}
use tesser.Prelude.Int.{leb_ℤ, ltb_ℤ}
use tesser.Prelude.HashMap.{HashMap, lookup, remove}
use tesser.Prelude.Bytes.{text_key}
use tesser.Decimal.{Decimal, nought, ◌⊕◌, ◌⊖◌, ◌⊗◌, ◌⊘◌, ◌<?◌, ◌≤?◌, ◌=?◌, min, max, is_zero}
use tesser.Core.Ids.{Symbol}
use tesser.Core.Types.{
  Text, Time, Side, buy, sell, same_side, accepted, partially_filled, filled, Fill,
}
use tesser.Core.Book.{LocalOrderBook, add_order, remove_order}
use tesser.Paper.Conditional.{TriggeredOrder, trigger_with_price}
use tesser.Paper.Fees.{maker, taker}
use tesser.Paper.Matching.{MatchingEngine, RestingOrder, queue_ahead_for}
use tesser.Paper.Matching.Booking.{build_fill, apply_fill_accounting, compute_fee}
use tesser.Paper.Matching.Orders.{Attached, spawn_attached_orders}

abbrev pub later_of : Time → Option Time → Time
later_of now none = now
later_of now (some prev) = if ltb_ℤ prev now then now else prev

module _ (D : Type 0) where
  abbrev pub Resting : Type 0
  Resting = HashMap Text (RestingOrder D)

  -- What a trade does with one resting order: the quantity of the trade that is left, the fills, the
  -- order, whether it is finished, and the engine.
  pub record Met : Type 0 where
    pub left : D
    pub generated : List (Fill D)
    pub order : RestingOrder D
    pub is_finished : Bool
    pub engine : MatchingEngine D

  pub record Matched : Type 0 where
    pub left : D
    pub generated : List (Fill D)
    pub resting : Resting
    pub finished : List Text
    pub engine : MatchingEngine D

module _ {D : Type 0} ⦃d : Decimal D⦄ where
  -- `reseed_queue_positions`, the orders of which see the same two books
  abbrev pub reseeded : MatchingEngine D → RestingOrder D → RestingOrder D
  reseeded e r = if not r.active || (r.remaining ≤? nought) then r else record r {
    initial_queue_position = queue_ahead_for r.order.request.side r.price r.remaining e;
    processed_volume = nought;
  }

  abbrev pub reseed_all : MatchingEngine D → Resting D → Resting D
  reseed_all e [] = []
  reseed_all e ((id, r) ∷ resting) = (id, reseeded e r) ∷ reseed_all e resting

  unfoldable pub reseed_queue_positions : MatchingEngine D → MatchingEngine D
  reseed_queue_positions e = record e { open_orders = reseed_all e e.open_orders }

  abbrev pub is_due : Time → RestingOrder D → Bool
  is_due now r = not r.active && leb_ℤ r.activation_time now

  abbrev pub activated : Time → MatchingEngine D → RestingOrder D → RestingOrder D
  activated now e r = record r {
    active = true;
    order = record r.order { status = accepted; updated_at = now };
    initial_queue_position = queue_ahead_for r.order.request.side r.price nought e;
    processed_volume = nought;
  }

  abbrev pub activate_all : Time → MatchingEngine D → Resting D → Resting D
  activate_all now e [] = []
  activate_all now e ((id, r) ∷ resting) =
      (id, (if is_due now r then activated now e r else r)) ∷ activate_all now e resting

  -- the additions to the resting depth, which follow the loop
  abbrev pub add_due : Time → Resting D → LocalOrderBook D → LocalOrderBook D
  add_due now [] b = b
  add_due now ((id, r) ∷ resting) b = add_due now resting (
      if is_due now r && (nought <? r.remaining)
      then add_order r.order.request.side r.price r.remaining b
      else b)

  unfoldable pub activate_due : Time → MatchingEngine D → MatchingEngine D
  activate_due now e = record e {
    open_orders = activate_all now e e.open_orders;
    resting_depth = add_due now e.open_orders e.resting_depth;
  }

  abbrev pub is_canceled : Time → RestingOrder D → Bool
  is_canceled now r = elim r.cancel_after [ none ↦ false | some deadline ↦ leb_ℤ deadline now ]

  abbrev pub keep_open : Time → Resting D → Resting D
  keep_open now [] = []
  keep_open now ((id, r) ∷ resting) =
      if is_canceled now r then keep_open now resting else (id, r) ∷ keep_open now resting

  abbrev pub remove_canceled : Time → Resting D → LocalOrderBook D → LocalOrderBook D
  remove_canceled now [] b = b
  remove_canceled now ((id, r) ∷ resting) b = remove_canceled now resting (
      if is_canceled now r && r.active && (nought <? r.remaining)
      then remove_order r.order.request.side r.price r.remaining b
      else b)

  unfoldable pub finalize_cancels : Time → MatchingEngine D → MatchingEngine D
  finalize_cancels now e = record e {
    open_orders = keep_open now e.open_orders;
    resting_depth = remove_canceled now e.open_orders e.resting_depth;
  }

  unfoldable pub advance_time : Time → MatchingEngine D → MatchingEngine D
  advance_time now e =
      let clocked = record e { clock = some (later_of now e.clock); queue_reset = false } in
      finalize_cancels now
        (activate_due now (if e.queue_reset then reseed_queue_positions clocked else clocked))

  -- What a trade of a size at the price of an order gives it, once the queue before it is through, and
  -- the order with the volume that it has seen.
  unfoldable pub passive_fillable_volume : D → RestingOrder D → D × RestingOrder D
  passive_fillable_volume trade_size r =
      if r.remaining ≤? nought
      then (nought, r)
      else (let cap = r.initial_queue_position ⊕ r.original_quantity in
          let seen = min (r.processed_volume ⊕ trade_size) cap in
          let before = max (r.processed_volume ⊖ r.initial_queue_position) nought in
          let after = max (seen ⊖ r.initial_queue_position) nought in
          (max (after ⊖ before) nought, record r { processed_volume = seen }))

  -- the order after a fill
  abbrev pub filled_at : D → D → Time → RestingOrder D → RestingOrder D
  filled_at price quantity timestamp r =
      let filled_quantity = r.order.filled_quantity ⊕ quantity in
      let prev_notional = unwrap_or r.order.avg_fill_price nought ⊗ r.order.filled_quantity in
      let new_notional = prev_notional ⊕ (price ⊗ quantity) in
      let remaining = max (r.remaining ⊖ quantity) nought in
      record r {
        remaining = remaining;
        order = record r.order {
          filled_quantity = filled_quantity;
          avg_fill_price =
              some (if is_zero filled_quantity then price else new_notional ⊘ filled_quantity);
          updated_at = timestamp;
          status = if remaining ≤? nought then filled else partially_filled;
        };
      }

  unfoldable pub trade_crosses_order : Side → D → RestingOrder D → Bool
  trade_crosses_order buy trade_price r =
      same_side r.order.request.side sell && (r.price <? trade_price)
  trade_crosses_order sell trade_price r =
      same_side r.order.request.side buy && (trade_price <? r.price)

module _ {D : Type 0} ⦃d : Decimal D⦄ (code : Symbol → Text) where
  unfoldable pub apply_resting_fill :
      Text
      → D
      → D
      → Time
      → RestingOrder D
      → MatchingEngine D
      → List (Fill D) × RestingOrder D × MatchingEngine D
  apply_resting_fill order_id price quantity timestamp r e =
      if quantity ≤? nought
      then ([], r, e)
      else (let q = r.order.request in
          let fee = compute_fee code q.symbol q.side maker price quantity e in
          let fill = build_fill order_id q.symbol q.side price quantity fee timestamp e in
          (
            fill ∷ [],
            filled_at price quantity timestamp r,
            apply_fill_accounting fill
                (record e { resting_depth = remove_order q.side r.price quantity e.resting_depth }),
          ))

  abbrev pub untouched : D → RestingOrder D → MatchingEngine D → Met D
  untouched quantity r e = record {
    left = quantity;
    generated = [];
    order = r;
    is_finished = false;
    engine = e;
  }

  abbrev pub fill_by : Text → D → D → D → Time → RestingOrder D → MatchingEngine D → Met D
  fill_by id price fill_qty quantity timestamp r e =
      let (fills, r', e') = apply_resting_fill id price fill_qty timestamp r e in
      record {
        left = quantity ⊖ fill_qty;
        generated = fills;
        order = r';
        is_finished = r'.remaining ≤? nought;
        engine = e';
      }

  unfoldable pub meet : Side → D → D → Time → Text → RestingOrder D → D → MatchingEngine D → Met D
  meet aggressor_side price trade_size timestamp id r quantity e =
      if (r.remaining ≤? nought) || not r.active
      then untouched quantity r e
      else if (quantity ≤? nought) && not (r.price =? price)
      then untouched quantity r e
      else if trade_crosses_order aggressor_side price r
      then fill_by id price (min quantity r.remaining) quantity timestamp r e
      else if (r.price =? price) && not (same_side r.order.request.side aggressor_side)
      then (let (incremental, seen) = passive_fillable_volume trade_size r in
          if (nought <? incremental) && (nought <? quantity)
          then fill_by id price (min (min incremental r.remaining) quantity) quantity timestamp seen
              e
          else untouched quantity seen e)
      else untouched quantity r e

  abbrev pub match_resting : Side → D → D → Time → Resting D → D → MatchingEngine D → Matched D
  match_resting side price size timestamp [] quantity e = record {
    left = quantity;
    generated = [];
    resting = [];
    finished = [];
    engine = e;
  }
  match_resting side price size timestamp ((id, r) ∷ resting) quantity e =
      let m = meet side price size timestamp id r quantity e in
      let rest = match_resting side price size timestamp resting m.left m.engine in
      record {
        left = rest.left;
        generated = m.generated ++ rest.generated;
        resting = (id, m.order) ∷ rest.resting;
        finished = if m.is_finished then id ∷ rest.finished else rest.finished;
        engine = rest.engine;
      }

  -- a finished order goes, and its attached orders come
  abbrev pub retire_one : Attached → Text → MatchingEngine D → MatchingEngine D
  retire_one drawn id e = elim (lookup id e.open_orders) [
    | none ↦ e
    | some r ↦
        spawn_attached_orders drawn r.order (record e { open_orders = remove id e.open_orders })
  ]

  abbrev pub retire : (Text → Attached) → List Text → MatchingEngine D → MatchingEngine D
  retire drawn [] e = e
  retire drawn (id ∷ finished) e = retire drawn finished (retire_one (drawn id) id e)

  -- the loop of `trigger_conditionals`, booking and storing each fill
  abbrev pub book_triggered : List (TriggeredOrder D) → MatchingEngine D → MatchingEngine D
  book_triggered [] e = e
  book_triggered (t ∷ triggered) e =
      let q = t.order.request in
      let fee = compute_fee code q.symbol q.side taker t.fill_price q.quantity e in
      let fill = build_fill t.order.id q.symbol q.side t.fill_price q.quantity fee t.timestamp e in
      let booked = apply_fill_accounting fill e in
      book_triggered triggered (record booked { fills = booked.fills ++ (fill ∷ []) })

  unfoldable pub trigger_conditionals : D → Time → MatchingEngine D → MatchingEngine D
  trigger_conditionals price timestamp e =
      let (orders, triggered) = trigger_with_price price timestamp e.conditional_orders in
      book_triggered triggered (record e { conditional_orders = orders })

  unfoldable pub process_trade :
      (Text → Attached) → Side → D → D → Time → MatchingEngine D → List (Fill D) × MatchingEngine D
  process_trade drawn aggressor_side price quantity timestamp e =
      let now = advance_time timestamp e in
      if quantity ≤? nought
      then ([], now)
      else (let m =
            match_resting aggressor_side price quantity timestamp now.open_orders quantity now in
          let matched = record m.engine { open_orders = m.resting } in
          let retired = retire drawn m.finished matched in
          (
            m.generated,
            trigger_conditionals price timestamp
                (record retired { fills = retired.fills ++ m.generated }),
          ))
