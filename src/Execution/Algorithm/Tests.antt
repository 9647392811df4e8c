-- ===== src/Execution/Algorithm/Tests.antt =====
-- Algorithms in hundredths, and the theorems about them.
mod Timed
use tesser.Prelude.{
  ◌+◌, ◌≡◌, ◌⊎◌, inl, inr, refl, true, false, none, some, List, [], ◌∷◌, arith, if◌then◌else◌,
}
use tesser.Prelude.Result.{ok}
use tesser.Prelude.Int.{ℤ, pos, ◌+ℤ◌, ◌-ℤ◌}
use tesser.Decimal.{units, one, ◌⊖◌, ◌⊗◌}
use tesser.Decimal.Parts.{◌≼◌, ◌≺◌}
use tesser.Decimal.Cents.{cents, cents-IsExact}
use tesser.Core.Ids.{Symbol}
use tesser.Core.Types.{Text, Uuid, buy, enter_long, exit_long, Fill, Signal, Tick}
use tesser.Execution.Algorithm.{working}
use tesser.Execution.Algorithm.Iceberg.{IcebergState, ActiveChild}
use tesser.Execution.Algorithm.Iceberg.Bounds.{IsBounded}
use tesser.Execution.Algorithm.Iceberg.Run.{World, Step, Reach, Room, IsSafe, Reach-bounded}
use tesser.Execution.Algorithm.Sniper.{SniperState, remaining, build_child}
use tesser.Execution.Algorithm.Iceberg.Recovery.{sequence_round_trip}
use tesser.Core.Types.{limit, partially_filled, Order}
use tesser.Execution.Algorithm.Pegged
use tesser.Execution.Algorithm.TrailingStop.{TrailingStopState}
use tesser.Execution.Algorithm.TrailingStop.Trail.{run, Stops, Outcome, run-Stops}
use tesser.Execution.Algorithm.Iceberg
use tesser.Execution.Algorithm.Sniper
use tesser.Execution.Algorithm.TrailingStop
use tesser.Execution.Algorithm.Twap

abbrev show_id : Uuid → Text
show_id u = u ∷ []

abbrev pair : Symbol
pair = record { exchange = 1; market_id = 7 }

abbrev signal : Signal ℤ
signal = record {
  id = 5;
  symbol = pair;
  kind = enter_long;
  quantity = none;
  group_id = none;
  panic_behavior = none;
  generated_at = pos 0;
  note = none;
  stop_loss = none;
  take_profit = none;
  execution_hint = none;
}

-- 3.00 of the order `9` at 100.00
abbrev fill_3 : Fill ℤ
fill_3 = record {
  order_id = 9 ∷ [];
  symbol = pair;
  side = buy;
  fill_price = pos 10000;
  fill_quantity = pos 300;
  fee = none;
  fee_asset = none;
  timestamp = pos 0;
}

abbrev at_price : ℤ → Tick ℤ
at_price p = record {
  symbol = pair;
  price = p;
  size = pos 100;
  side = buy;
  exchange_timestamp = pos 0;
  received_at = pos 0;
}

-- 10.00 in slices of 3.00, with one of them open
abbrev child : ActiveChild ℤ
child = record { order_id = 9 ∷ []; remaining = pos 300 }

abbrev iceberg : IcebergState ℤ
iceberg = record {
  id = 2;
  parent_signal = signal;
  status = working;
  total_quantity = pos 1000;
  filled_quantity = pos 0;
  display_quantity = pos 300;
  limit_price = pos 10000;
  limit_offset_bps = none;
  next_child_seq = 1;
  active_child = some child;
}

iceberg-IsBounded : IsBounded iceberg
unfolding ◌+ℤ◌
iceberg-IsBounded = ground arith

abbrev world : World ℤ
world = record { algo = iceberg; pending = [] }

abbrev filled_world : World ℤ
filled_world = record {
  algo = (Iceberg.on_fill show_id fill_3 iceberg).0;
  pending = (Iceberg.on_fill show_id fill_3 iceberg).1;
}

world-IsSafe : IsSafe show_id world
world-IsSafe = record { bounded = iceberg-IsBounded; room = tt }

filled : Reach show_id world filled_world
filled = Reach.next Reach.here (Step.fill fill_3 refl refl refl (omega arith) (omega arith))

Reach-bounded_example :
    (filled_world.algo.filled_quantity ≼ filled_world.algo.total_quantity)
    × Room show_id filled_world.algo filled_world.pending
Reach-bounded_example = Reach-bounded show_id cents-IsExact world-IsSafe filled

-- an order of 5.00 that shows all of it, asked for and not yet acknowledged
abbrev unseen : IcebergState ℤ
unseen = record iceberg {
  total_quantity = pos 500;
  display_quantity = pos 500;
  active_child = none;
}

-- an early fill of 3.00 of it asks for 2.00 more, beside the 2.00 that the first child can still fill
early_fill_asks_again :
    (Iceberg.on_fill show_id fill_3 unseen).1
    ≡ (Iceberg.build_limit_child show_id (pos 200) (record unseen { filled_quantity = pos 300 })).1
unfolding Iceberg.on_fill Iceberg.maybe_spawn_slice Iceberg.complete_if_needed
    Iceberg.remaining_parent Iceberg.fill_child Iceberg.build_limit_child ◌+ℤ◌ ◌-ℤ◌
early_fill_asks_again = refl

-- buys 5.00 at 99.00 or less
abbrev sniper : SniperState ℤ
sniper = record {
  id = 3;
  parent_signal = signal;
  status = working;
  total_quantity = pos 500;
  filled_quantity = pos 0;
  trigger_price = pos 9900;
  timeout = none;
  triggered = false;
  started_at = pos 0;
}

-- sells 5.00 when the price, once at 110.00, falls by a tenth from the high
abbrev trailing : TrailingStopState ℤ
trailing = record {
  id = 4;
  parent_signal = record signal { kind = exit_long };
  status = working;
  total_quantity = pos 500;
  filled_quantity = pos 0;
  activation_price = pos 11000;
  callback_rate = pos 10;
  highest_market_price = pos 11000;
  activated = false;
  triggered = false;
}

trailing_made :
    TrailingStop.new 4 trailing.parent_signal (pos 500) (pos 11000) (pos 10) ≡ ok trailing
unfolding TrailingStop.new
trailing_made = refl

abbrev rise_and_fall : List (Tick ℤ)
rise_and_fall = at_price (pos 10900) ∷ at_price (pos 12000) ∷ at_price (pos 10700) ∷ []

less_a_tenth : (pos 12000 ⊗ (one ⊖ pos 10)) ≡ pos 10800
unfolding ◌-ℤ◌ ◌+ℤ◌
less_a_tenth = refl

tenth_off : Stops (pos 10) (pos 11000) rise_and_fall
tenth_off = inr (ground arith, inl (ground arith, inl (ground (arith, less_a_tenth))))

run-Stops_example :
    (quantity : ℤ) × (units quantity ≡ units (pos 500))
    × Outcome show_id
        (Stops (pos 10) (pos 11000) rise_and_fall)
        quantity
        trailing
        (run show_id rise_and_fall trailing)
run-Stops_example =
    run-Stops cents-IsExact show_id 4 trailing.parent_signal (pos 500) (pos 11000) (pos 10)
      rise_and_fall trailing_made

sequence_round_trip_example :
    Iceberg.sequence_from_client_id show_id iceberg (Iceberg.client_id show_id 2 4294967295)
    ≡ some 4294967295
sequence_round_trip_example = sequence_round_trip show_id iceberg 4294967295 (omega arith)

-- the child `7`, of which 1.00 of 3.00 is filled
abbrev found_order : Order ℤ
found_order = record {
  id = 9 ∷ [];
  request = record {
    symbol = pair;
    side = buy;
    order_type = limit;
    quantity = pos 300;
    price = some (pos 10000);
    trigger_price = none;
    time_in_force = none;
    client_order_id = some (Iceberg.client_id show_id 2 7);
    take_profit = none;
    stop_loss = none;
    display_quantity = none;
  };
  status = partially_filled;
  filled_quantity = pos 100;
  avg_fill_price = none;
  created_at = pos 0;
  updated_at = pos 0;
}
