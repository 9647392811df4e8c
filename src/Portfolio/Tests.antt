-- ===== src/Portfolio/Tests.antt =====
-- A portfolio in hundredths, and the theorems about it.
use tesser.Prelude.{
  ◌≡◌, ◌↔◌, ◌⊎◌, refl, true, false, Option, none, some, List, [], ◌∷◌, ◌++◌, arith,
}
use tesser.Prelude.Int.{ℤ, pos, negsuc, ◌+ℤ◌, ◌-ℤ◌, neg_ℤ}
use tesser.Prelude.Result.{ok}
use tesser.Decimal.{units, nought, ◌⊖◌, ◌⊗◌}
use tesser.Decimal.Parts.{IsNonneg, ◌≼◌}
use tesser.Decimal.Cents.{cents, cents-IsExact}
use tesser.Core.Ids.{AssetId, Symbol}
use tesser.Core.Types.{
  Text, Uuid, Instrument, linear_perpetual, inverse_perpetual, buy, sell, Fill, Position,
}
use tesser.Portfolio.{Portfolio, update_drawdown_state, equity, cash_value, total_unrealized}
use tesser.Portfolio.Holding.{fill_position, shrink, signed, realized_delta, unrealized_of}
use tesser.Portfolio.Holding.Signed.{IsPosition, signed_fill, inverse_short_gains}
use tesser.Ledger.{LedgerEntry, transfer_in}
use tesser.Ledger.Journal.{FillLedgerContext, entries_from_fill}
use tesser.Portfolio.Perpetual.{booked, perpetual_booked_twice}
use tesser.Portfolio.Updates.{
  FillLedgerImpact, apply_fill_positions, apply_ledger_entries, signed_position_qty, position,
}
use tesser.Portfolio.Updates.Closed.{closed_counts_twice}
use tesser.Portfolio.Updates.Fills.{apply_fill_positions_moves}
use tesser.Portfolio.Drawdown.{
  Breached, update_drawdown_state_trips, Event, entries, price, fill, run, drawdown_sticky,
}

abbrev pub code_of : AssetId → Text
code_of a = a.asset_id ∷ []

abbrev usdt : AssetId
usdt = record { exchange = 1; asset_id = 1 }

abbrev btc : AssetId
btc = record { exchange = 1; asset_id = 2 }

abbrev pub market_of : Symbol
market_of = record { exchange = 1; market_id = 7 }

abbrev perpetual : Instrument ℤ
perpetual = record {
  symbol = market_of;
  base = btc;
  quote = usdt;
  kind = linear_perpetual;
  settlement_currency = usdt;
  tick_size = pos 1;
  lot_size = pos 1;
}

abbrev pub registry : Symbol → Option (Instrument ℤ)
registry s = some perpetual

-- a sale of 5.00 at 110.00
abbrev pub sale : Fill ℤ
sale = record {
  order_id = [];
  symbol = market_of;
  side = sell;
  fill_price = pos 11000;
  fill_quantity = pos 500;
  fee = none;
  fee_asset = none;
  timestamp = pos 0;
}

-- 3.00 bought at 100.00, and last marked at 108.00
abbrev long : Position ℤ
long = record {
  symbol = market_of;
  side = some buy;
  quantity = pos 300;
  entry_price = some (pos 10000);
  unrealized_pnl = pos 2400;
  updated_at = pos 0;
}

abbrev long_5 : Position ℤ
long_5 = record long { quantity = pos 500 }

abbrev pub start : Portfolio ℤ
start = record {
  sub_accounts =
      (1, record { exchange = 1; balances = []; positions = (market_of, long) ∷ [] }) ∷ [];
  reporting_currency = usdt;
  initial_equity = pos 100000;
  drawdown_limit = some (pos 10);
  peak_equity = pos 100000;
  liquidate_only = false;
}

pub long-IsPosition : IsPosition long
long-IsPosition = ground arith

-- the sale turns the 3.00 long around into 2.00 short
turned : signed (fill_position sale long) ≡ negsuc 199
unfolding signed fill_position shrink neg_ℤ ◌-ℤ◌
turned = refl

-- the portfolio has no cash, and its loss trips the switch
tripped : (update_drawdown_state start).liquidate_only ≡ true
unfolding update_drawdown_state equity cash_value total_unrealized ◌+ℤ◌ ◌-ℤ◌
tripped = refl

-- 50.00 transferred in
abbrev transfer : LedgerEntry ℤ
transfer = record {
  id = 1;
  sequence = 1;
  timestamp = pos 0;
  exchange = 1;
  asset = usdt;
  amount = pos 5000;
  entry_type = transfer_in;
  reference_id = [];
  meta = none;
}

abbrev marked : Position ℤ
marked = record long_5 { unrealized_pnl = unrealized_of linear_perpetual sale.fill_price long_5 }

abbrev one_marked : Portfolio ℤ
one_marked = record start {
  sub_accounts =
      (1, record { exchange = 1; balances = []; positions = (market_of, marked) ∷ [] }) ∷ [];
}

holds_marked : position market_of one_marked ≡ some marked
unfolding position
holds_marked = refl

marked_again :
    unrealized_of linear_perpetual sale.fill_price long_5
    ≡ unrealized_of linear_perpetual sale.fill_price marked
unfolding unrealized_of
marked_again = refl

closed_counts_twice_example :
    (p' : Portfolio ℤ) × (impact : FillLedgerImpact ℤ) × (apply_fill_positions code_of registry sale
        one_marked
      ≡ ok (p', impact))
    × (impact.realized_pnl ≡ unrealized_of linear_perpetual sale.fill_price long_5)
    × (units (signed_position_qty market_of p') ≡ pos 0)
    × (total_unrealized (apply_ledger_entries code_of (transfer ∷ []) p')
        ≡ total_unrealized one_marked)
closed_counts_twice_example =
    closed_counts_twice code_of cents-IsExact registry sale one_marked (transfer ∷ []) refl
      holds_marked refl refl marked_again

apply_fill_positions_moves_example :
    (p' : Portfolio ℤ) × (impact : FillLedgerImpact ℤ) × (apply_fill_positions code_of registry sale
        start
      ≡ ok (p', impact))
    × (units (signed_position_qty market_of p')
        ≡ units (signed_position_qty market_of start) +ℤ units (signed_fill sale))
    × ((symbol : Symbol) → (symbol ≡ market_of) ⊎ (position symbol p' ≡ position symbol start))
apply_fill_positions_moves_example =
    apply_fill_positions_moves code_of cents-IsExact registry sale start refl (omega arith)
      long-IsPosition

update_drawdown_state_trips_example :
    (start.peak_equity ≼ (update_drawdown_state start).peak_equity)
    × (equity start ≼ (update_drawdown_state start).peak_equity)
    × (((update_drawdown_state start).liquidate_only ≡ true) ↔ (
        (start.liquidate_only ≡ true)
        ⊎ Breached start.drawdown_limit (update_drawdown_state start).peak_equity (equity start)))
update_drawdown_state_trips_example = update_drawdown_state_trips start

abbrev events : List (Event ℤ)
events =
    fill registry sale ∷ entries (transfer ∷ []) ∷ price registry (pos 1) market_of (pos 12000) ∷ []

drawdown_sticky_example :
    (start.peak_equity ≼ (run code_of events start).peak_equity)
    × ((start.liquidate_only ≡ false) ⊎ ((run code_of events start).liquidate_only ≡ true))
    × ((run code_of events start).drawdown_limit ≡ start.drawdown_limit)
drawdown_sticky_example = drawdown_sticky code_of events start

-- 3.00 of an inverse contract sold at 1.00
abbrev short_inverse : Position ℤ
short_inverse = record long { side = some sell; entry_price = some (pos 100) }

-- at 2.00 the short shows a profit
inverse_marked : unrealized_of inverse_perpetual (pos 200) short_inverse ≡ pos 150
unfolding unrealized_of ◌-ℤ◌
inverse_marked = refl

inverse_short_gains_example : IsNonneg (unrealized_of inverse_perpetual (pos 200) short_inverse)
inverse_short_gains_example =
    inverse_short_gains cents-IsExact short_inverse (pos 100) (pos 200) refl refl (omega arith)
      (omega arith)

-- 5.00 bought at 100.00, which the sale closes
abbrev purchase : Fill ℤ
purchase = record sale { side = buy; fill_price = pos 10000 }

abbrev pub draw : Text → Uuid
draw component = 0

abbrev pub render : Symbol → Text
render s = s.market_id ∷ []

perpetual_booked_twice_example :
    (let opened : FillLedgerContext ℤ = record {
      fill = purchase;
      instrument = perpetual;
      realized_pnl = nought;
    } in
      let closed : FillLedgerContext ℤ = record {
        fill = sale;
        instrument = perpetual;
        realized_pnl = realized_delta linear_perpetual sale long_5;
      } in
      booked usdt (
        entries_from_fill draw (pos 0) render opened
        ++ entries_from_fill draw (pos 0) render closed)
      ≡ ((pos 11000 ⊗ pos 500) -ℤ (pos 10000 ⊗ pos 500)) +ℤ ((pos 11000 ⊖ pos 10000) ⊗ pos 500))
perpetual_booked_twice_example =
    perpetual_booked_twice cents-IsExact draw (pos 0) render perpetual purchase sale long_5 refl
      refl refl refl refl refl refl refl refl
