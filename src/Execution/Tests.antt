-- ===== src/Execution/Tests.antt =====
-- Orders, signals and algorithms in hundredths, and the theorems about them.
use tesser.Prelude.{◌≡◌, ◌↔◌, refl, true, false, none, some, [], ◌∷◌, arith}
use tesser.Prelude.Int.{ℤ, pos, ◌+ℤ◌, ◌-ℤ◌}
use tesser.Prelude.Result.{ok, err}
use tesser.Decimal.{abs}
use tesser.Decimal.Cents.{cents, cents-IsExact}
use tesser.Core.Ids.{AssetId, Symbol}
use tesser.Core.Types.{
  Text, Uuid, Side, buy, sell, spot, market, enter_long, pending_new, OrderRequest, Order, Signal,
}
use tesser.Execution.Risk.{
  RiskContext, RiskLimits, RiskError, insufficient_balance, projected_position, check, check_size,
  check_notional, check_exposure, check_liquidation, check_balance, reduces_only, reference_price,
}
use tesser.Execution.Risk.Accepts.{Accepts, check_iff}
use tesser.Execution.Risk.Exposure.{Shrinks, check_liquidates}
use tesser.Execution.Sizing.{fixed, size, determine_quantity}
use tesser.Execution.Engine.{Client, handle_signal, build_request, client_order_id}
use tesser.Execution.Engine.Sent.{Sends, handle_signal-Sends}
use tesser.Execution.Engine.Protection.{spot_entry_unprotected}

abbrev pub show_id : Uuid → Text
show_id u = u ∷ []

abbrev pub no_text : RiskError ℤ → Text
no_text e = []

abbrev usdt : AssetId
usdt = record { exchange = 1; asset_id = 1 }

abbrev btc : AssetId
btc = record { exchange = 1; asset_id = 2 }

abbrev pub pair : Symbol
pair = record { exchange = 1; market_id = 7 }

-- a spot account with 1000.00 to spend and none of the base asset
abbrev pub cash_only : RiskContext ℤ
cash_only = record {
  symbol = pair;
  exchange = 1;
  signed_position_qty = pos 0;
  portfolio_equity = pos 100000;
  exchange_equity = pos 100000;
  last_price = pos 10000;
  liquidate_only = false;
  instrument_kind = some spot;
  base_asset = btc;
  quote_asset = usdt;
  settlement_asset = usdt;
  base_available = pos 0;
  quote_available = pos 100000;
  settlement_available = pos 100000;
}

-- the same account holding 3.00, in liquidate-only mode
abbrev winding_down : RiskContext ℤ
winding_down = record cash_only {
  signed_position_qty = pos 300;
  base_available = pos 300;
  liquidate_only = true;
}

abbrev pub loose : RiskLimits ℤ
loose = record {
  max_order_quantity = pos 10000;
  max_position_quantity = pos 0;
  max_order_notional = none;
}

-- a market order for 2.00
abbrev order_for : Side → OrderRequest ℤ
order_for side = record {
  symbol = pair;
  side = side;
  order_type = market;
  quantity = pos 200;
  price = none;
  trigger_price = none;
  time_in_force = none;
  client_order_id = none;
  take_profit = none;
  stop_loss = none;
  display_quantity = none;
}

abbrev go_long : Signal ℤ
go_long = record {
  id = 5;
  symbol = pair;
  kind = enter_long;
  quantity = none;
  group_id = none;
  panic_behavior = none;
  generated_at = pos 0;
  note = none;
  stop_loss = some (pos 9000);
  take_profit = some (pos 12000);
  execution_hint = none;
}

-- a broker that takes every order, and a sizer that answers 2.00
abbrev placed_order : OrderRequest ℤ → Order ℤ
placed_order r = record {
  id = 1 ∷ [];
  request = r;
  status = pending_new;
  filled_quantity = pos 0;
  avg_fill_price = none;
  created_at = pos 0;
  updated_at = pos 0;
}

abbrev pub broker : Client ℤ
broker sent r = ok (placed_order r)

sale_passes : check loose (order_for sell) winding_down ≡ ok tt
unfolding check check_size check_notional check_exposure check_liquidation check_balance
    reduces_only reference_price projected_position ◌+ℤ◌ ◌-ℤ◌
sale_passes = refl

check_iff_example :
    (check loose (order_for buy) cash_only ≡ ok tt) ↔ Accepts loose (order_for buy) cash_only
check_iff_example = check_iff loose (order_for buy) cash_only

check_liquidates_example :
    Shrinks cents-IsExact (pos 300) (projected_position sell (pos 300) (abs (pos 200)))
check_liquidates_example =
    check_liquidates cents-IsExact loose (order_for sell) winding_down refl sale_passes

handle_signal-Sends_example :
    Sends
      (check loose)
      go_long
      cash_only
      3
      []
      (handle_signal show_id no_text broker (check loose) (fixed (pos 200)) go_long cash_only []).1
handle_signal-Sends_example =
    handle_signal-Sends show_id no_text broker (check loose) (fixed (pos 200)) go_long cash_only []

abbrev entry : OrderRequest ℤ
entry = build_request pair buy (pos 200) (some (client_order_id show_id go_long))

-- 20.00 at 100.00 is more than the account has
abbrev large_entry : OrderRequest ℤ
large_entry = build_request pair buy (pos 2000) (some (client_order_id show_id go_long))

sized : determine_quantity (fixed (pos 200)) go_long cash_only ≡ ok (pos 200)
unfolding determine_quantity size
sized = refl

sized_large : determine_quantity (fixed (pos 2000)) go_long cash_only ≡ ok (pos 2000)
unfolding determine_quantity size
sized_large = refl

entry_passes : check loose entry cash_only ≡ ok tt
unfolding check check_size check_notional check_exposure check_liquidation check_balance
    reduces_only reference_price projected_position ◌+ℤ◌ ◌-ℤ◌ build_request
entry_passes = refl

large_entry_fails :
    check loose large_entry cash_only ≡ err (insufficient_balance usdt (pos 200000) (pos 100000))
unfolding check check_size check_notional check_exposure check_liquidation check_balance
    reduces_only reference_price projected_position ◌+ℤ◌ ◌-ℤ◌ build_request
large_entry_fails = refl

spot_entry_unprotected_example :
    handle_signal show_id no_text broker (check loose) (fixed (pos 200)) go_long cash_only []
    ≡ (ok (some (placed_order entry)), entry ∷ [])
spot_entry_unprotected_example =
    spot_entry_unprotected show_id no_text broker loose (fixed (pos 200)) go_long cash_only [] refl
      refl sized (omega arith) (omega arith) entry_passes refl
