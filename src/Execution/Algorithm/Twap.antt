-- ===== src/Execution/Algorithm/Twap.antt =====
-- tesser-execution/src/algorithm/twap.rs. Each reading of the clock is an argument, in the order in
-- which the code reads it.
pub mod Slices
use tesser.Prelude.{
  ℕ, ◌+◌, ◌-◌, ◌*◌, ◌/◌, Bool, not, ◌&&◌, ◌||◌, Option, none, some, List, [], ◌∷◌, ◌++◌,
  if◌then◌else◌, ltb, ◌==◌,
}
use tesser.Prelude.Bytes.{codes, same_text, strip_prefix, split_once, show_u32, parse_u32}
use tesser.Prelude.Int.{pos, pos_part, ◌+ℤ◌, leb_ℤ, ltb_ℤ}
use tesser.Prelude.Result.{Result, ok, fail_if, ◌>>◌}
use tesser.Decimal.{Decimal, nought, of_ℕ, ◌⊕◌, ◌⊖◌, ◌⊘◌, ◌≤?◌, is_zero}
use tesser.Core.Types.{
  Text, Uuid, Time, Duration, side_of, market, OrderRequest, Order, Fill, Signal,
}
use tesser.Execution.Algorithm.{
  AlgoStatus, working, completed, cancelled, is_working, ChildOrderRequest, place, is_active_status,
}

pub record TwapState (D : Type 0) : Type 0 where
  pub id : Uuid
  pub parent_signal : Signal D
  pub status : AlgoStatus
  pub start_time : Time
  pub end_time : Time
  pub total_quantity : D
  pub filled_quantity : D
  pub num_slices : ℕ
  pub executed_slices : ℕ
  pub next_slice_time : Time
  pub slice_interval : Duration

-- The whole seconds of a duration above zero over the slices, rounded up, in nanoseconds: the floats
-- of the code hold these numbers exactly.
abbrev pub interval_of : Duration → ℕ → Duration
interval_of duration num =
    let secs = pos_part duration / 1000000000 in pos ((secs + num - 1) / num * 1000000000)

module _ {D : Type 0} ⦃d : Decimal D⦄ where
  unfoldable pub new : Uuid → Time → Signal D → D → Duration → ℕ → Result Text (TwapState D)
  new id now signal total duration num =
      fail_if (leb_ℤ duration (pos 0) || num == 0)
        (codes "TWAP duration and slices must be positive")
      >> fail_if (total ≤? nought) (codes "TWAP total quantity must be positive")
      >> ok (record {
        id = id;
        parent_signal = signal;
        status = working;
        start_time = now;
        end_time = now +ℤ duration;
        total_quantity = total;
        filled_quantity = nought;
        num_slices = num;
        executed_slices = 0;
        next_slice_time = now;
        slice_interval = interval_of duration num;
      })

  unfoldable pub should_execute_slice : Time → TwapState D → Bool
  should_execute_slice now s =
      leb_ℤ s.next_slice_time now && ltb s.executed_slices s.num_slices && ltb_ℤ now s.end_time

  -- Slices that remain are counted only after `should_execute_slice`, so the difference is exact.
  unfoldable pub calculate_slice_quantity : TwapState D → D
  calculate_slice_quantity s =
      let remaining_qty = s.total_quantity ⊖ s.filled_quantity in
      let remaining_slices = s.num_slices - s.executed_slices in
      let divisor = of_ℕ remaining_slices in
      if remaining_qty ≤? nought
      then nought
      else if remaining_slices == 0
      then nought
      else if is_zero divisor
      then nought
      else remaining_qty ⊘ divisor

  unfoldable pub check_completion : Time → TwapState D → TwapState D
  check_completion now s =
      if leb_ℤ s.end_time now
      then record s { status = completed }
      else if s.total_quantity ≤? s.filled_quantity
      then record s { status = completed }
      else s

  unfoldable pub on_fill : Time → Fill D → TwapState D → TwapState D × List (ChildOrderRequest D)
  on_fill now f s = (
    check_completion now (record s { filled_quantity = s.filled_quantity ⊕ f.fill_quantity }),
    [],
  )

  unfoldable pub cancel : TwapState D → TwapState D
  cancel s = record s { status = cancelled }

module _ {D : Type 0} ⦃d : Decimal D⦄ (show : Uuid → Text) where
  unfoldable pub create_slice_order : D → TwapState D → ChildOrderRequest D
  create_slice_order qty s =
      let request : OrderRequest D = record {
        symbol = s.parent_signal.symbol;
        side = side_of s.parent_signal.kind;
        order_type = market;
        quantity = qty;
        price = none;
        trigger_price = none;
        time_in_force = none;
        client_order_id =
            some (
              codes "twap-"
              ++ (show s.id ++ (codes "-slice-" ++ show_u32 (s.executed_slices + 1))));
        take_profit = none;
        stop_loss = none;
        display_quantity = none;
      } in
      record { parent_algo_id = s.id; action = place request }

  -- a slice, in a state that is to be worked: the counter and the next time, and then the order
  unfoldable pub execute_slice : Time → TwapState D → TwapState D × List (ChildOrderRequest D)
  execute_slice now s =
      let qty = calculate_slice_quantity s in
      let s' = record s {
        executed_slices = s.executed_slices + 1;
        next_slice_time = now +ℤ s.slice_interval;
      } in
      if qty ≤? nought then (s, []) else (s', create_slice_order qty s' ∷ [])

  -- the part of `on_timer` after `check_completion`
  unfoldable pub work_slice : Time → Time → TwapState D → TwapState D × List (ChildOrderRequest D)
  work_slice now later s =
      if not (is_working s.status)
      then (s, [])
      else if should_execute_slice now s
      then execute_slice later s
      else (s, [])

  unfoldable pub on_timer :
      Time → Time → Time → TwapState D → TwapState D × List (ChildOrderRequest D)
  on_timer first now later s = work_slice now later (check_completion first s)

  unfoldable pub slice_from_client_id : TwapState D → Text → Option ℕ
  slice_from_client_id s text = elim (strip_prefix (codes "twap-") text) [
    | none ↦ none
    | some rest ↦ elim (split_once (codes "-slice-") rest) [
      | none ↦ none
      | some (id_part, slice_part) ↦
          if same_text id_part (show s.id) then parse_u32 slice_part else none
    ]
  ]

  unfoldable pub bind_child_order : Time → Order D → TwapState D → TwapState D
  bind_child_order now o s =
      let bound = λ (slice : ℕ). record s {
        executed_slices = if ltb s.executed_slices slice then slice else s.executed_slices;
        next_slice_time = now +ℤ s.slice_interval;
        status = if is_working s.status then s.status else working;
      } in
      if not (is_active_status o.status) then s else elim o.request.client_order_id [
        | none ↦ s
        | some text ↦ elim (slice_from_client_id s text) [ none ↦ s | some slice ↦ bound slice ]
      ]
