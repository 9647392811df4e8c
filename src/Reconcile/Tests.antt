-- ===== src/Reconcile/Tests.antt =====
-- A long position that the exchange has smaller, orders that only one side has, and the theorems
-- about the report.
use tesser.Prelude.{ℕ, ◌≡◌, refl, false, none, some, [], ◌∷◌}
use tesser.Prelude.Int.{ℤ, pos, ◌-ℤ◌}
use tesser.Decimal.Cents.{cents, cents-IsExact}
use tesser.Core.Ids.{Symbol}
use tesser.Core.Types.{buy, Position, Order, limit, accepted}
use tesser.Reconcile.{
  PortfolioState, LocalSnapshot, ExchangeSnapshot, local_position, remote_position, diff_positions,
  signed_quantity, signed_or_zero,
}
use tesser.Prelude.Bytes.{text_key}
use tesser.Prelude.{List}
use tesser.Reconcile.{diff_orders}
use tesser.Reconcile.Exact.{about_symbol, Reports, diff_positions_exact}

abbrev pair : Symbol
pair = record { exchange = 1; market_id = 7 }

abbrev long : ℤ → Position ℤ
long quantity = record {
  symbol = pair;
  side = some buy;
  quantity = quantity;
  entry_price = none;
  unrealized_pnl = pos 0;
  updated_at = pos 0;
}

abbrev state : PortfolioState ℤ
state = record {
  positions = (pair, long (pos 100)) ∷ [];
  balances = [];
  reporting_currency = record { exchange = 1; asset_id = 1 };
  initial_equity = pos 0;
  drawdown_limit = none;
  peak_equity = pos 0;
  liquidate_only = false;
  sub_accounts = [];
}

abbrev recorded : LocalSnapshot ℤ
recorded = record { portfolio = some state; open_orders = [] }

abbrev fetched : ExchangeSnapshot ℤ
fetched = record { positions = long (pos 50) ∷ []; balances = []; open_orders = [] }

-- one discrepancy, of 0.50
half_missing :
    (diff_positions recorded fetched).discrepancies
    ≡ record {
      symbol = pair;
      local = some (long (pos 100));
      remote = some (long (pos 50));
      local_signed = pos 100;
      remote_signed = pos 50;
      delta = pos 50;
    }
      ∷ []
unfolding diff_positions signed_or_zero signed_quantity ◌-ℤ◌
half_missing = refl

diff_positions_exact_example :
    Reports
      (local_position recorded pair)
      (remote_position fetched pair)
      (about_symbol pair (diff_positions recorded fetched).discrepancies)
diff_positions_exact_example = diff_positions_exact cents-IsExact recorded fetched pair

abbrev order : ℕ → Order ℤ
order n = record {
  id = n ∷ [];
  request = record {
    symbol = pair;
    side = buy;
    order_type = limit;
    quantity = pos 100;
    price = none;
    trigger_price = none;
    time_in_force = none;
    client_order_id = none;
    take_profit = none;
    stop_loss = none;
    display_quantity = none;
  };
  status = accepted;
  filled_quantity = pos 0;
  avg_fill_price = none;
  created_at = pos 0;
  updated_at = pos 0;
}

-- 1 is only here, 2 on both sides, 3 only there
abbrev here : List (Order ℤ)
here = order 1 ∷ order 2 ∷ []

abbrev there : List (Order ℤ)
there = order 2 ∷ order 3 ∷ []

orders_compared : diff_orders here there ≡ record {
  matched = record { local = order 2; remote = order 2 } ∷ [];
  ghosts = order 1 ∷ [];
  zombies = order 3 ∷ [];
}
unfolding diff_orders
orders_compared = refl
