-- ===== src/Execution/Algorithm/Tests/Timed.antt =====
-- The algorithms that read the clock: the theorems about time-weighted, volume-weighted and pegged orders.
use tesser.Prelude.{◌≡◌, none, some, List, [], ◌∷◌}
use tesser.Prelude.Int.{ℤ, pos, ◌+ℤ◌, ◌-ℤ◌}
use tesser.Decimal.{nought}
use tesser.Decimal.Cents.{cents, cents-IsExact}
use tesser.Execution.Algorithm.{working, ChildOrderRequest}
use tesser.Execution.Algorithm.Iceberg.Bounds.{placed}
use tesser.Execution.Algorithm.Vwap
use tesser.Execution.Algorithm.Vwap.{VwapState}
use tesser.Execution.Algorithm.Vwap.Schedule.{Scheduled, on_tick_schedules, on_tick_repeats}
use tesser.Core.Types.{Time}
use tesser.Prelude.{refl}
use tesser.Execution.Algorithm.Pegged.{PeggedState}
use tesser.Execution.Algorithm.Pegged.Chase.{TickAsks, on_tick_pegs}
use tesser.Execution.Algorithm.Pegged
use tesser.Decimal.{max}
use tesser.Execution.Algorithm.Twap.{TwapState, on_timer}
use tesser.Execution.Algorithm.Twap.Slices.{Event, Sliced, on_timer_slices}
use tesser.Execution.Algorithm.Tests.{show_id, signal, fill_3, at_price}

-- 9.00 in three slices, one of them executed
abbrev twap : TwapState ℤ
twap = record {
  id = 6;
  parent_signal = signal;
  status = working;
  start_time = pos 0;
  end_time = pos 30;
  total_quantity = pos 900;
  filled_quantity = pos 300;
  num_slices = 3;
  executed_slices = 1;
  next_slice_time = pos 10;
  slice_interval = pos 10;
}

abbrev timers : List (Event ℤ)
timers = Event.timer (pos 10) (pos 10) (pos 10) ∷ Event.fill (pos 11) fill_3 ∷ []

on_timer_slices_example :
    Sliced show_id (pos 10) (pos 10) twap (on_timer show_id (pos 10) (pos 10) (pos 10) twap)
on_timer_slices_example = on_timer_slices show_id cents-IsExact (pos 10) (pos 10) (pos 10) twap

-- 10.00 in clips of 4.00, half a percent below the price, with one clip open
abbrev pegged : PeggedState ℤ
pegged = record {
  id = 8;
  parent_signal = signal;
  status = working;
  total_quantity = pos 1000;
  filled_quantity = pos 0;
  clip_size = pos 400;
  offset_bps = pos 5000;
  refresh = pos 10;
  last_order_time = some (pos 0);
  last_peg_price = some (pos 9900);
  next_child_seq = 1;
  min_chase_distance = pos 10;
  active_child = some (record {
    order_id = 9 ∷ [];
    client_order_id = none;
    total_quantity = pos 400;
    filled_quantity = pos 100;
    working_price = some (pos 9900);
  });
}

on_tick_pegs_example :
    TickAsks
      (pos 20)
      (Pegged.peg_price (max (pos 10500) nought) pegged)
      pegged
      (Pegged.on_tick show_id (pos 20) (at_price (pos 10500)) pegged).1
on_tick_pegs_example = on_tick_pegs show_id (pos 20) (at_price (pos 10500)) pegged

-- 10.00 over two seconds, with no bound on the share of the volume
abbrev vwap : VwapState ℤ
vwap = record {
  id = 9;
  parent_signal = signal;
  status = working;
  total_quantity = pos 1000;
  filled_quantity = pos 0;
  participation_rate = none;
  start_time = pos 0;
  end_time = pos 2000000000;
  observed_volume = pos 0;
  min_slice = pos 50;
  next_child_seq = 0;
}

-- half of the window has passed
abbrev half : Time
half = pos 1000000000

on_tick_schedules_example :
    Scheduled show_id half
      (Vwap.observe (at_price (pos 9900)) vwap)
      (Vwap.on_tick show_id half (at_price (pos 9900)) vwap)
on_tick_schedules_example = on_tick_schedules show_id cents-IsExact half (at_price (pos 9900)) vwap

abbrev first_child : VwapState ℤ × ChildOrderRequest ℤ
first_child = Vwap.build_market_child show_id (pos 500) (Vwap.observe (at_price (pos 9900)) vwap)

asked_first :
    Vwap.on_tick show_id half (at_price (pos 9900)) vwap ≡ (first_child.0, first_child.1 ∷ [])
unfolding Vwap.on_tick Vwap.work_tick Vwap.schedule_target ◌+ℤ◌ ◌-ℤ◌
asked_first = refl

on_tick_repeats_example :
    (s : VwapState ℤ) × (c : ChildOrderRequest ℤ) × (Vwap.on_tick show_id half
        (at_price (pos 9800))
        first_child.0
      ≡ (s, c ∷ []))
    × (placed c.action ≡ placed first_child.1.action)
on_tick_repeats_example =
    on_tick_repeats show_id half (at_price (pos 9900)) (at_price (pos 9800)) vwap refl asked_first
