-- ===== src/Paper/Tests.antt =====
-- A stop loss and a take profit of one position, and the theorem about their group.
use tesser.Prelude.{◌≡◌, refl, none, some, [], ◌∷◌}
use tesser.Prelude.Int.{ℤ, pos}
use tesser.Prelude.Bytes.{codes}
use tesser.Decimal.Cents.{cents}
use tesser.Core.Types.{Text, sell, stop_market, pending_new, Order, Candle, one_minute}
use tesser.Core.Ids.{Symbol}
use tesser.Paper.Conditional.{
  ConditionalOrderManager, stop_loss, split, evaluate, parse_group, push, candle_touches,
  trigger_with_candle,
}
use tesser.Paper.Conditional.Groups.{of_group}
use tesser.Paper.Conditional.Wins.{ResolvesOnce, resolved_once}

abbrev pair : Symbol
pair = record { exchange = 1; market_id = 7 }

-- a sale of 1.00 at a trigger price
abbrev leg : Text → ℤ → Order ℤ
leg client_id trigger = record {
  id = client_id;
  request = record {
    symbol = pair;
    side = sell;
    order_type = stop_market;
    quantity = pos 100;
    price = none;
    trigger_price = some trigger;
    time_in_force = none;
    client_order_id = some client_id;
    take_profit = none;
    stop_loss = none;
    display_quantity = none;
  };
  status = pending_new;
  filled_quantity = pos 0;
  avg_fill_price = none;
  created_at = pos 0;
  updated_at = pos 0;
}

abbrev legs : ConditionalOrderManager ℤ
legs =
    push (leg (codes "base-tp") (pos 11000))
      (push (leg (codes "base-sl") (pos 9000)) (record { orders = [] }))

-- from 80 to 120
abbrev wide : Candle ℤ
wide = record {
  symbol = pair;
  interval = one_minute;
  «open» = pos 10000;
  high = pos 12000;
  low = pos 8000;
  close = pos 9500;
  volume = pos 100;
  timestamp = pos 5;
}

-- both are touched, and only the stop loss is triggered
stop_loss_wins :
    (trigger_with_candle wide legs).1
    ≡ record {
      order = leg (codes "base-sl") (pos 9000);
      fill_price = pos 9000;
      timestamp = pos 5;
      kind = stop_loss;
      group = some (codes "base");
    }
      ∷ []
unfolding trigger_with_candle candle_touches evaluate push parse_group
stop_loss_wins = refl

resolved_once_example :
    ResolvesOnce
      (codes "base")
      (of_group (codes "base") (split (candle_touches wide) legs.orders).0)
      legs
      (evaluate (candle_touches wide) legs)
resolved_once_example = resolved_once (candle_touches wide) legs (codes "base")
