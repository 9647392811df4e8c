-- ===== src/Execution/Orchestrator/Tests.antt =====
-- A group of two legs, of which one is filled when the other fails.
use tesser.Prelude.{◌≡◌, refl, none, some, [], ◌∷◌, arith, false}
use tesser.Prelude.HashMap.{HashMap, lookup}
use tesser.Prelude.Key.{nat_key}
use tesser.Prelude.Bytes.{text_key}
use tesser.Prelude.Int.{ℤ, pos}
use tesser.Decimal.Cents.{cents}
use tesser.Core.Ids.{Symbol, symbol_key}
use tesser.Core.Types.{buy, sell, Fill}
use tesser.Execution.Risk.{RiskContext, check}
use tesser.Execution.Tests.{show_id, no_text, broker, loose, cash_only, pair}
use tesser.Execution.Orchestrator.{
  aggressive, pending, ExecutionGroupLeg, ExecutionGroupState, handle_group_fill,
}
use tesser.Execution.Orchestrator.Panic.{PanicState, fail_group_leg}
use tesser.Execution.Orchestrator.Panic.Fails.{Unwound, Panics, fail_group_leg_unwinds}
use tesser.Execution.Orchestrator.Panic.Once.{failure, fill, after, run, panic_once, late_fill_lost}

abbrev other : Symbol
other = record { exchange = 1; market_id = 8 }

-- 2.00 of 2.00 bought
abbrev bought : ExecutionGroupLeg ℤ
bought = record { symbol = pair; side = buy; target = pos 200; filled = pos 200; status = pending }

abbrev unfilled : ExecutionGroupLeg ℤ
unfilled = record {
  symbol = other;
  side = sell;
  target = pos 200;
  filled = pos 0;
  status = pending;
}

abbrev group : ExecutionGroupState ℤ
group = record {
  legs = (pair, bought) ∷ (other, unfilled) ∷ [];
  panic_config = record { mode = aggressive; limit_offset_bps = pos 5000 };
  panic_triggered = false;
}

abbrev contexts : HashMap Symbol (RiskContext ℤ)
contexts = (pair, cash_only) ∷ []

abbrev before : PanicState ℤ
before = record {
  groups = record {
    execution_groups = (3, group) ∷ [];
    group_order_mapping = (4 ∷ [], (3, pair)) ∷ (5 ∷ [], (3, other)) ∷ [];
  };
  sent = [];
  told = [];
}

-- 1.00 of the order of the other leg
abbrev late_fill : Fill ℤ
late_fill = record {
  order_id = 5 ∷ [];
  symbol = other;
  side = sell;
  fill_price = pos 10000;
  fill_quantity = pos 100;
  fee = none;
  fee_asset = none;
  timestamp = pos 0;
}

group-Panics : Panics group
group-Panics = ground arith

fail_group_leg_unwinds_example :
    Unwound
      (some group)
      []
      (fail_group_leg show_id no_text broker (check loose) contexts 3 other [] before).sent
fail_group_leg_unwinds_example =
    fail_group_leg_unwinds show_id no_text broker (check loose) contexts 3 other [] before

panic_once_example :
    (run show_id no_text broker
      (check loose)
      contexts
      3
      (failure pair [] ∷ fill late_fill ∷ [])
      (after show_id no_text broker (check loose) contexts 3 other [] before)).sent
    ≡ (after show_id no_text broker (check loose) contexts 3 other [] before).sent
panic_once_example =
    panic_once show_id no_text broker (check loose) contexts 3 other []
      (failure pair [] ∷ fill late_fill ∷ []) before refl (group-Panics.1)

late_fill_lost_example :
    lookup 3
      (handle_group_fill late_fill
        (after show_id no_text broker
          (check loose)
          contexts
          3
          other
          []
          before).groups).execution_groups
    ≡ lookup 3
        (after show_id no_text broker
          (check loose)
          contexts
          3
          other
          []
          before).groups.execution_groups
late_fill_lost_example =
    late_fill_lost show_id no_text broker (check loose) contexts 3 other [] late_fill before refl
      group-Panics
