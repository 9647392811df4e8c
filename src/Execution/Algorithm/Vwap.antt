-- ===== src/Execution/Algorithm/Vwap.antt =====
-- tesser-execution/src/algorithm/vwap.rs. Each reading of the clock is an argument, in the order in
-- which the code reads it.
pub mod Schedule
use tesser.Prelude.{
  ℕ, suc, ◌+◌, ◌/◌, ◌%◌, ◌^◌, Bool, not, Option, none, some, List, [], ◌∷◌, ◌++◌, if◌then◌else◌,
}
use tesser.Prelude.Bytes.{codes, show_u32}
use tesser.Prelude.Int.{pos, negsuc, ℤ, neg_ℤ, ◌+ℤ◌, ◌-ℤ◌, leb_ℤ}
use tesser.Prelude.Result.{Result, ok, fail_if, ◌>>◌}
use tesser.Decimal.{
  Decimal, nought, one, of_ℕ, scaled, ◌⊕◌, ◌⊖◌, ◌⊗◌, ◌⊘◌, ◌<?◌, ◌≤?◌, is_zero, neg, max, min,
}
use tesser.Core.Types.{
  Text, Uuid, Time, Duration, side_of, market, OrderRequest, Fill, Signal, Tick,
}
use tesser.Execution.Algorithm.{
  AlgoStatus, working, completed, cancelled, is_working, ChildOrderRequest, place,
}

pub record VwapState (D : Type 0) : Type 0 where
  pub id : Uuid
  pub parent_signal : Signal D
  pub status : AlgoStatus
  pub total_quantity : D
  pub filled_quantity : D
  pub participation_rate : Option D
  pub start_time : Time
  pub end_time : Time
  pub observed_volume : D
  pub min_slice : D
  pub next_child_seq : ℕ

-- `num_milliseconds`, the whole milliseconds of a duration
abbrev pub num_milliseconds : Duration → ℤ
num_milliseconds (pos n) = pos (n / 1000000)
num_milliseconds (negsuc n) = neg_ℤ (pos (suc n / 1000000))

module _ {D : Type 0} ⦃d : Decimal D⦄ where
  -- `Decimal::from_i64`, which has a value for every integer
  abbrev pub from_i64 : ℤ → D
  from_i64 (pos n) = of_ℕ n
  from_i64 (negsuc n) = neg (of_ℕ (suc n))

  unfoldable pub new : Uuid → Time → Signal D → D → Duration → Option D → Result Text (VwapState D)
  new id now signal total duration rate =
      fail_if (total ≤? nought) (codes "VWAP total quantity must be positive")
      >> fail_if (leb_ℤ duration (pos 0)) (codes "VWAP duration must be positive")
      >> ok (record {
        id = id;
        parent_signal = signal;
        status = working;
        total_quantity = total;
        filled_quantity = nought;
        participation_rate = rate;
        start_time = now;
        end_time = now +ℤ duration;
        observed_volume = nought;
        min_slice = max (total ⊗ scaled 5 2) (scaled 1 3);
        next_child_seq = 0;
      })

  -- the share of the window that has passed, between zero and one
  abbrev pub progress : Time → VwapState D → D
  progress now s =
      let total_ms : D = from_i64 (num_milliseconds (s.end_time -ℤ s.start_time)) in
      let elapsed_ms : D = from_i64 (num_milliseconds (now -ℤ s.start_time)) in
      let share : D = if is_zero total_ms then one else elapsed_ms ⊘ total_ms in
      if share <? nought then nought else if one <? share then one else share

  -- the target with the share of the observed volume that the order may take
  abbrev pub participate : D → VwapState D → D
  participate target s = elim s.participation_rate [
    | none ↦ target
    | some rate ↦ min target (s.observed_volume ⊗ max rate nought)
  ]

  unfoldable pub schedule_target : Time → VwapState D → D
  schedule_target now s =
      if leb_ℤ (num_milliseconds (s.end_time -ℤ s.start_time)) (pos 0)
      then s.total_quantity
      else min (participate (s.total_quantity ⊗ progress now s) s) s.total_quantity

  unfoldable pub check_completion : Time → VwapState D → VwapState D
  check_completion now s =
      if s.total_quantity ≤? s.filled_quantity
      then record s { status = completed }
      else if leb_ℤ s.end_time now
      then record s { status = completed }
      else s

  unfoldable pub on_fill : Time → Fill D → VwapState D → VwapState D × List (ChildOrderRequest D)
  on_fill now f s = (
    check_completion now (record s { filled_quantity = s.filled_quantity ⊕ f.fill_quantity }),
    [],
  )

  unfoldable pub on_timer : Time → VwapState D → VwapState D × List (ChildOrderRequest D)
  on_timer now s = (check_completion now s, [])

  unfoldable pub cancel : VwapState D → VwapState D
  cancel s = record s { status = cancelled }

  -- the first statement of `on_tick`
  abbrev pub observe : Tick D → VwapState D → VwapState D
  observe t s = record s { observed_volume = s.observed_volume ⊕ max t.size nought }

module _ {D : Type 0} ⦃d : Decimal D⦄ (show : Uuid → Text) where
  unfoldable pub build_market_child : D → VwapState D → VwapState D × ChildOrderRequest D
  build_market_child quantity s =
      let seq = (s.next_child_seq + 1) % 2 ^ 32 in
      let request : OrderRequest D = record {
        symbol = s.parent_signal.symbol;
        side = side_of s.parent_signal.kind;
        order_type = market;
        quantity = quantity;
        price = none;
        trigger_price = none;
        time_in_force = none;
        client_order_id = some (codes "vwap-" ++ (show s.id ++ (codes "-" ++ show_u32 seq)));
        take_profit = none;
        stop_loss = none;
        display_quantity = none;
      } in
      (record s { next_child_seq = seq }, record { parent_algo_id = s.id; action = place request })

  -- `on_tick` on a working order, once the volume is observed
  unfoldable pub work_tick : Time → VwapState D → VwapState D × List (ChildOrderRequest D)
  work_tick now s =
      let deficit = schedule_target now s ⊖ s.filled_quantity in
      let qty = min deficit (s.total_quantity ⊖ s.filled_quantity) in
      let (s', child) = build_market_child qty s in
      if deficit ≤? s.min_slice
      then (s, [])
      else if qty ≤? nought
      then (s, [])
      else (s', child ∷ [])

  unfoldable pub on_tick : Time → Tick D → VwapState D → VwapState D × List (ChildOrderRequest D)
  on_tick now t s =
      let s' = observe t s in if not (is_working s.status) then (s', []) else work_tick now s'
