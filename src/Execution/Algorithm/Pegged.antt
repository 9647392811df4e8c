-- ===== src/Execution/Algorithm/Pegged.antt =====
-- tesser-execution/src/algorithm/pegged.rs. A reading of the clock is an argument.
pub mod Chase
use tesser.Prelude.{
  ℕ, ◌+◌, ◌%◌, Bool, true, false, not, Option, none, some, List, [], ◌∷◌, ◌++◌, if◌then◌else◌,
  max_ℕ, unwrap_or,
}
use tesser.Prelude.Bytes.{codes, same_text, strip_prefix, rsplit_once, show_u32, parse_u32}
use tesser.Prelude.Int.{pos, ◌-ℤ◌, leb_ℤ, ltb_ℤ}
use tesser.Prelude.Result.{Result, ok, fail_if, ◌>>◌}
use tesser.Decimal.{Decimal, nought, one, of_ℕ, ◌⊕◌, ◌⊖◌, ◌⊗◌, ◌⊘◌, ◌<?◌, ◌≤?◌, abs, max, min}
use tesser.Core.Types.{
  Text, Uuid, Time, Duration, buy, sell, side_of, limit, good_til_canceled, OrderRequest,
  OrderUpdateRequest, Order, Fill, Signal, Tick,
}
use tesser.Execution.Algorithm.{
  AlgoStatus, working, completed, cancelled, is_working, is_active_status, ChildOrderRequest, place,
  amend,
}

pub record ActiveChildOrder (D : Type 0) : Type 0 where
  pub order_id : Text
  pub client_order_id : Option Text
  pub total_quantity : D
  pub filled_quantity : D
  pub working_price : Option D

pub record PeggedState (D : Type 0) : Type 0 where
  pub id : Uuid
  pub parent_signal : Signal D
  pub status : AlgoStatus
  pub total_quantity : D
  pub filled_quantity : D
  pub clip_size : D
  pub offset_bps : D
  pub refresh : Duration
  pub last_order_time : Option Time
  pub last_peg_price : Option D
  pub next_child_seq : ℕ
  pub min_chase_distance : D
  pub active_child : Option (ActiveChildOrder D)

module _ {D : Type 0} ⦃d : Decimal D⦄ where
  unfoldable pub child_remaining : ActiveChildOrder D → D
  child_remaining c = max (c.total_quantity ⊖ c.filled_quantity) nought

  unfoldable pub new :
      Uuid → Signal D → D → D → Option D → Duration → Option D → Result Text (PeggedState D)
  new id signal total offset clip_size refresh distance =
      let clip = min (max (unwrap_or clip_size total) nought) total in
      fail_if (total ≤? nought) (codes "pegged algorithm requires positive quantity")
      >> fail_if (offset <? nought) (codes "offset must be non-negative")
      >> fail_if (leb_ℤ refresh (pos 0)) (codes "refresh interval must be positive")
      >> ok (record {
        id = id;
        parent_signal = signal;
        status = working;
        total_quantity = total;
        filled_quantity = nought;
        clip_size = if clip ≤? nought then total else clip;
        offset_bps = offset;
        refresh = refresh;
        last_order_time = none;
        last_peg_price = none;
        next_child_seq = 0;
        min_chase_distance = max (unwrap_or distance nought) nought;
        active_child = none;
      })

  unfoldable pub remaining : PeggedState D → D
  remaining s = max (s.total_quantity ⊖ s.filled_quantity) nought

  unfoldable pub peg_price : D → PeggedState D → D
  peg_price tick_price s =
      let offset = s.offset_bps ⊘ of_ℕ 10000 in
      elim (side_of s.parent_signal.kind) [
        | buy ↦ tick_price ⊗ (one ⊖ offset)
        | sell ↦ tick_price ⊗ (one ⊕ offset)
      ]

  unfoldable pub last_emit_elapsed : Time → PeggedState D → Duration
  last_emit_elapsed now s = elim s.last_order_time [ none ↦ s.refresh | some t ↦ now -ℤ t ]

  unfoldable pub should_refresh : D → Time → PeggedState D → Bool
  should_refresh price now s =
      if leb_ℤ s.refresh (last_emit_elapsed now s) then true else elim s.last_peg_price [
        | none ↦ true
        | some prev ↦ s.min_chase_distance <? abs (prev ⊖ price)
      ]

  unfoldable pub should_chase : D → Time → PeggedState D → Bool
  should_chase price now s =
      if ltb_ℤ (last_emit_elapsed now s) s.refresh then false else elim s.last_peg_price [
        | none ↦ true
        | some prev ↦ not (abs (prev ⊖ price) <? s.min_chase_distance)
      ]

  unfoldable pub mark_completed : PeggedState D → PeggedState D
  mark_completed s = if remaining s ≤? nought then record s { status = completed } else s

  -- the price of an order, if it has one, as the last peg
  abbrev peg_to : Option D → PeggedState D → PeggedState D
  peg_to none s = s
  peg_to (some price) s = record s { last_peg_price = some price }

  -- the order as the open child
  unfoldable pub adopt : Time → Order D → PeggedState D → PeggedState D
  adopt time o s = record (peg_to o.request.price s) {
    last_order_time = some time;
    active_child = some (record {
      order_id = o.id;
      client_order_id = o.request.client_order_id;
      total_quantity = o.request.quantity;
      filled_quantity = o.filled_quantity;
      working_price = o.request.price;
    });
  }

  unfoldable pub on_child_order_placed : Time → Order D → PeggedState D → PeggedState D
  on_child_order_placed now o s = adopt now o s

  -- the child after a fill, dropped when its own fills have used it up
  unfoldable pub fill_child : Fill D → Option (ActiveChildOrder D) → Option (ActiveChildOrder D)
  fill_child f none = none
  fill_child f (some c) =
      let c' = record c { filled_quantity = c.filled_quantity ⊕ f.fill_quantity } in
      if same_text c.order_id f.order_id
      then (if child_remaining c' ≤? nought then none else some c')
      else some c

  unfoldable pub on_fill : Fill D → PeggedState D → PeggedState D × List (ChildOrderRequest D)
  on_fill f s =
      let s' = record s {
        filled_quantity = s.filled_quantity ⊕ f.fill_quantity;
        active_child = fill_child f s.active_child;
      } in
      (mark_completed s', [])

  unfoldable pub on_timer : PeggedState D → PeggedState D × List (ChildOrderRequest D)
  on_timer s = (mark_completed s, [])

  unfoldable pub cancel : PeggedState D → PeggedState D
  cancel s = record s { status = cancelled }

  -- an amendment of the open child, when it is to be chased
  unfoldable pub chase :
      D → Time → ActiveChildOrder D → PeggedState D → PeggedState D × List (ChildOrderRequest D)
  chase price now c s =
      let request : OrderUpdateRequest D = record {
        order_id = c.order_id;
        symbol = s.parent_signal.symbol;
        side = side_of s.parent_signal.kind;
        new_price = some price;
        new_quantity = some c.total_quantity;
      } in
      if not (should_chase price now s)
      then (s, [])
      else if child_remaining c ≤? nought
      then (s, [])
      else (
        record s { last_peg_price = some price; last_order_time = some now },
        record { parent_algo_id = s.id; action = amend request } ∷ [],
      )

module _ {D : Type 0} ⦃d : Decimal D⦄ (show : Uuid → Text) where
  -- The sequence number is a `u32`.
  unfoldable pub build_child : D → D → PeggedState D → PeggedState D × List (ChildOrderRequest D)
  build_child price qty s =
      let seq = (s.next_child_seq + 1) % 4294967296 in
      let request : OrderRequest D = record {
        symbol = s.parent_signal.symbol;
        side = side_of s.parent_signal.kind;
        order_type = limit;
        quantity = qty;
        price = some price;
        trigger_price = none;
        time_in_force = some good_til_canceled;
        client_order_id = some (codes "peg-" ++ (show s.id ++ (codes "-" ++ show_u32 seq)));
        take_profit = none;
        stop_loss = none;
        display_quantity = none;
      } in
      (
        record s { next_child_seq = seq },
        record { parent_algo_id = s.id; action = place request } ∷ [],
      )

  -- a new child at the peg, when there is none
  unfoldable pub quote : D → Time → PeggedState D → PeggedState D × List (ChildOrderRequest D)
  quote price now s =
      let s' = record s { last_peg_price = some price } in
      let qty = min (remaining s) s.clip_size in
      if not (should_refresh price now s)
      then (s, [])
      else if qty ≤? nought
      then (s', [])
      else build_child price qty s'

  unfoldable pub on_tick :
      Time → Tick D → PeggedState D → PeggedState D × List (ChildOrderRequest D)
  on_tick now t s =
      let price = peg_price (max t.price nought) s in
      if not (is_working s.status)
      then (s, [])
      else if remaining s ≤? nought
      then (record s { status = completed }, [])
      else elim s.active_child [ some c ↦ chase price now c s | none ↦ quote price now s ]

  unfoldable pub sequence_from_client_id : PeggedState D → Text → Option ℕ
  sequence_from_client_id s text = elim (strip_prefix (codes "peg-") text) [
    | none ↦ none
    | some rest ↦ elim (rsplit_once b'-' rest) [
      | none ↦ none
      | some (id_part, seq_part) ↦
          if same_text id_part (show s.id) then parse_u32 seq_part else none
    ]
  ]

  -- the sequence, which goes on above a number that was found
  abbrev numbered : Option ℕ → PeggedState D → PeggedState D
  numbered none s = s
  numbered (some seq) s = record s { next_child_seq = max_ℕ s.next_child_seq seq }

  unfoldable pub bind_child_order : Order D → PeggedState D → PeggedState D
  bind_child_order o s =
      let status = if is_working s.status then s.status else working in
      if not (is_active_status o.status) then s else elim o.request.client_order_id [
        | none ↦ s
        | some text ↦ record (adopt o.updated_at o (numbered (sequence_from_client_id s text) s)) {
          status = status;
        }
      ]
