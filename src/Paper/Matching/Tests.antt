-- ===== src/Paper/Matching/Tests.antt =====
-- A matching engine in small states, and the theorems at them.
use tesser.Prelude.{◌≡◌, refl, inr, none, some, true, false, [], ◌∷◌, All, arith}
use tesser.Prelude.Int.{ℤ, pos, ◌≤ℤ◌, ◌+ℤ◌, ◌-ℤ◌, min_ℤ, neg_ℤ}
use tesser.Prelude.Bytes.{codes}
use tesser.Decimal.{units}
use tesser.Decimal.Cents.{cents, cents-IsExact}
use tesser.Core.Ids.{AssetId, Symbol}
use tesser.Core.Types.{Text, buy, sell, limit, partially_filled, OrderRequest, OrderUpdateRequest}
use tesser.Core.Book.{LocalOrderBook, ask_rank, bid_rank, best_ask, empty_book}
use tesser.Core.Book.Valid.{IsValid}
use tesser.Paper.Matching.{MatchingEngine, RestingOrder, conservative, limit_crosses}
use tesser.Paper.Matching.Orders.{Attached, Draws, place_order, amend_order}
use tesser.Paper.Matching.Trades.{advance_time, process_trade}
use tesser.Paper.Matching.Trades.Meet.{traded}
use tesser.Paper.Matching.Trades.Fair.{AllSettled, IsGiven, process_trade_fair}
use tesser.Paper.Matching.Trades.Queue.{watch, total, max_ℤ, queue_served}
use tesser.Paper.Matching.Reach.{here, next, place, trade, Reach-AllSettled}
use tesser.Paper.Matching.Limits.{IsSwept, taker_sweeps}
use tesser.Paper.Matching.Amends.{IsUnqueued, refused_amend_unqueues}

abbrev pair : Symbol
pair = record { exchange = 1; market_id = 7 }

abbrev usdt : AssetId
usdt = record { exchange = 1; asset_id = 2 }

abbrev code : Symbol → Text
code s = codes "BTCUSDT"

abbrev attached : Attached
attached = record { take_profit = (codes "tp", pos 1); stop_loss = (codes "sl", pos 1) }

abbrev draws : Draws
draws = record {
  order = (codes "o-1", pos 1);
  pending = (codes "p-1", pos 1);
  wall = pos 1;
  fill_time = λ n. pos 1;
  attached = attached;
}

-- a buy of 2.00 at 100
abbrev limit_buy : OrderRequest ℤ
limit_buy = record {
  symbol = pair;
  side = buy;
  order_type = limit;
  quantity = pos 200;
  price = some (pos 10000);
  trigger_price = none;
  time_in_force = none;
  client_order_id = none;
  take_profit = none;
  stop_loss = none;
  display_quantity = none;
}

abbrev quiet : MatchingEngine ℤ
quiet = record {
  info = record { name = codes "paper"; markets = []; supports_testnet = true };
  market_depth = empty_book;
  resting_depth = empty_book;
  balances = [];
  positions = [];
  open_orders = [];
  fills = [];
  conditional_orders = record { orders = [] };
  latency = pos 0;
  queue_model = conservative;
  clock = none;
  queue_reset = false;
  fee_model = λ ctx price quantity. pos 0;
  cash_asset = usdt;
}

-- asks of 1.00 at 100 and of 5.00 at 200
abbrev thin : LocalOrderBook ℤ
thin = record { bids = []; asks = (pos 10000, pos 100) ∷ (pos 20000, pos 500) ∷ [] }

abbrev offered : MatchingEngine ℤ
offered = record quiet { market_depth = thin }

thin-IsValid : IsValid thin
unfolding bid_rank ask_rank neg_ℤ
thin-IsValid = ground arith

-- the buy of 2.00 at no more than 100 takes 1.00 at 200
taker_sweeps_example : IsSwept limit_buy offered (place_order code draws limit_buy offered)
unfolding limit_crosses best_ask
taker_sweeps_example =
    taker_sweeps cents-IsExact code draws limit_buy offered thin-IsValid (ground arith)
      (inr (refl, pos 10000, refl, refl))

Reach-AllSettled_example :
    AllSettled
      (process_trade code
        (λ id. attached)
        sell
        (pos 9900)
        (pos 50)
        (pos 2)
        (place_order code draws limit_buy quiet).1).1
Reach-AllSettled_example =
    Reach-AllSettled cents-IsExact code
      (next (next here (place draws limit_buy (ground arith)))
        (trade (λ id. attached) sell (pos 9900) (pos 50) (pos 2)))
      tt

-- the buy, 0.50 of which is filled
abbrev half_done : RestingOrder ℤ
half_done = record {
  order = record {
    id = codes "o-1";
    request = limit_buy;
    status = partially_filled;
    filled_quantity = pos 50;
    avg_fill_price = some (pos 10000);
    created_at = pos 1;
    updated_at = pos 1;
  };
  remaining = pos 150;
  price = pos 10000;
  initial_queue_position = pos 30;
  processed_volume = pos 0;
  activation_time = pos 1;
  cancel_after = none;
  active = true;
  original_quantity = pos 200;
}

abbrev waiting : LocalOrderBook ℤ
waiting = record { bids = (pos 10000, pos 150) ∷ []; asks = [] }

abbrev queued : MatchingEngine ℤ
queued = record quiet { resting_depth = waiting; open_orders = (codes "o-1", half_done) ∷ [] }

waiting-IsValid : IsValid waiting
unfolding bid_rank ask_rank neg_ℤ
waiting-IsValid = ground arith

queued-AllSettled : AllSettled queued
unfolding ◌+ℤ◌
queued-AllSettled =
    (record { whole = refl; filled_nonneg = ground arith; remaining_nonneg = ground arith }, tt)

process_trade_fair_example :
    All
      (IsGiven sell (pos 9900) (advance_time (pos 2) queued).open_orders)
      (process_trade code (λ id. attached) sell (pos 9900) (pos 50) (pos 2) queued).0
    × (traded (process_trade code (λ id. attached) sell (pos 9900) (pos 50) (pos 2) queued).0
        ≤ℤ units (pos 50))
process_trade_fair_example =
    process_trade_fair cents-IsExact code (λ id. attached) sell (pos 9900) (pos 50) (pos 2) queued
      queued-AllSettled (ground arith)

queue_served_example :
    (watch (pos 20 ∷ pos 40 ∷ []) half_done).0
    ≡ min_ℤ (max_ℤ (total (pos 20 ∷ pos 40 ∷ []) -ℤ pos 30) (pos 0)) (pos 200)
queue_served_example =
    queue_served cents-IsExact (pos 20 ∷ pos 40 ∷ []) half_done (ground arith) (ground arith)
      (ground arith) refl (ground arith)

-- to 0.10 at 98
abbrev too_small : OrderUpdateRequest ℤ
too_small = record {
  order_id = codes "o-1";
  symbol = pair;
  side = buy;
  new_price = some (pos 9800);
  new_quantity = some (pos 10);
}

refused_amend_unqueues_example :
    IsUnqueued too_small half_done queued (amend_order (pos 3) too_small queued)
refused_amend_unqueues_example =
    refused_amend_unqueues cents-IsExact (pos 3) too_small queued half_done (pos 10) refl refl refl
      refl (ground arith) refl (ground arith) waiting-IsValid
