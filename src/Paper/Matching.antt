-- ===== src/Paper/Matching.antt =====
-- connectors/tesser-paper/src/lib.rs: `MatchingEngine`, the simulated exchange. A method that changes
-- what stands behind its locks is a function to the engine after it.
pub mod Booking
pub mod Orders
pub mod Trades
pub mod Reach
pub mod Limits
pub mod Amends
mod Tests
use tesser.Prelude.{
  suc, Bool, true, false, Option, none, some, List, [], ◌∷◌, if◌then◌else◌, map, unwrap_or, length,
}
use tesser.Prelude.Int.{ℤ, pos, ◌+ℤ◌, ltb_ℤ, leb_ℤ}
use tesser.Prelude.HashMap.{HashMap}
use tesser.Decimal.{Decimal, nought, of_ℕ, ◌⊕◌, ◌⊖◌, ◌⊘◌, ◌<?◌, ◌≤?◌, max, abs}
use tesser.Core.Ids.{AssetId, Symbol}
use tesser.Core.Types.{
  Text, Time, Duration, Side, buy, sell, inverse, Order, Fill, Position, AccountBalance,
}
use tesser.Core.Book.{
  LocalOrderBook, OrderBook, OrderBookLevel, DepthUpdate, empty_book, add_order, remove_order,
  clear_level, load_snapshot, volume_at_level, best_bid, best_ask, take_liquidity,
}
use tesser.Core.Book.Sweep.Liquidity.{side_of_book}
use tesser.Broker.{BrokerInfo}
use tesser.Paper.Conditional.{ConditionalOrderManager}
use tesser.Paper.Fees.{FeeContext, fee, build_model, default_config}

pub data QueueModel : Type 0 where
  conservative optimistic : QueueModel

module _ (D : Type 0) where
  -- `dyn FeeModel`
  abbrev pub FeeModel : Type 0
  FeeModel = FeeContext → D → D → D

  pub record RestingOrder : Type 0 where
    pub order : Order D
    pub remaining : D
    pub price : D
    pub initial_queue_position : D
    pub processed_volume : D
    pub activation_time : Time
    pub cancel_after : Option Time
    pub active : Bool
    pub original_quantity : D

  pub record MatchingEngineConfig : Type 0 where
    pub latency : Duration
    pub queue_model : QueueModel
    pub fee_model : FeeModel
    pub cash_asset : Option AssetId

  pub record MatchingEngine : Type 0 where
    pub info : BrokerInfo
    pub market_depth : LocalOrderBook D
    pub resting_depth : LocalOrderBook D
    pub balances : List (AccountBalance D)
    pub positions : HashMap Symbol (Position D)
    pub open_orders : HashMap Text RestingOrder
    pub fills : List (Fill D)
    pub conditional_orders : ConditionalOrderManager D
    pub latency : Duration
    pub queue_model : QueueModel
    pub clock : Option Time
    pub queue_reset : Bool
    pub fee_model : FeeModel
    pub cash_asset : AssetId

module _ {D : Type 0} ⦃d : Decimal D⦄ where
  abbrev pub no_latency : MatchingEngine D → Bool
  no_latency e = leb_ℤ e.latency (pos 0)

  abbrev pub default_engine_config : MatchingEngineConfig D
  unfolding fee build_model
  default_engine_config = record {
    latency = pos 0;
    queue_model = conservative;
    fee_model = λ ctx price quantity. fee ctx price quantity (build_model default_config);
    cash_asset = none;
  }

  -- `usdt` is what the text "USDT" is interned as, and `code` the text of a symbol.
  unfoldable pub with_config :
      AssetId
      → (Symbol → Text)
      → Time
      → Text
      → List Symbol
      → D
      → MatchingEngineConfig D
      → MatchingEngine D
  with_config usdt code now name markets initial_cash config =
      let cash_asset = unwrap_or config.cash_asset usdt in
      record {
        info = record { name = name; markets = map code markets; supports_testnet = true };
        market_depth = empty_book;
        resting_depth = empty_book;
        balances =
            record {
              exchange = cash_asset.exchange;
              asset = cash_asset;
              total = initial_cash;
              available = initial_cash;
              updated_at = now;
            }
            ∷ [];
        positions = [];
        open_orders = [];
        fills = [];
        conditional_orders = record { orders = [] };
        latency = if ltb_ℤ config.latency (pos 0) then pos 0 else config.latency;
        queue_model = config.queue_model;
        clock = none;
        queue_reset = false;
        fee_model = config.fee_model;
        cash_asset = cash_asset;
      }

  unfoldable pub new : AssetId → (Symbol → Text) → Time → Text → List Symbol → D → MatchingEngine D
  new usdt code now name markets initial_cash =
      with_config usdt code now name markets initial_cash default_engine_config

  abbrev pub pairs_of : List (OrderBookLevel D) → List (D × D)
  pairs_of = map (λ (l : OrderBookLevel D). (l.price, l.size))

  unfoldable pub load_market_snapshot : OrderBook D → MatchingEngine D → MatchingEngine D
  load_market_snapshot snapshot e = record e {
    market_depth = load_snapshot (pairs_of snapshot.bids) (pairs_of snapshot.asks) e.market_depth;
    queue_reset = true;
  }

  unfoldable pub upsert_market_level : Side → D → D → MatchingEngine D → MatchingEngine D
  upsert_market_level side price quantity e =
      let cleared = clear_level side price e.market_depth in
      record e {
        market_depth =
            if nought <? quantity then add_order side price quantity cleared else cleared;
      }

  unfoldable pub force_resting_level : Side → D → D → MatchingEngine D → MatchingEngine D
  force_resting_level side price quantity e = record e {
    resting_depth =
        if quantity ≤? nought
        then remove_order side price (abs quantity) e.resting_depth
        else add_order side price quantity e.resting_depth;
    queue_reset = true;
  }

  abbrev pub upsert_all : Side → List (OrderBookLevel D) → MatchingEngine D → MatchingEngine D
  upsert_all side [] e = e
  upsert_all side (l ∷ levels) e =
      upsert_all side levels (upsert_market_level side l.price l.size e)

  unfoldable pub apply_depth_update : DepthUpdate D → MatchingEngine D → MatchingEngine D
  apply_depth_update update e = upsert_all sell update.asks (upsert_all buy update.bids e)

  unfoldable pub mid_price : MatchingEngine D → Option D
  mid_price e = elim (best_bid e.market_depth) [
    | some (bid, _) ↦ elim (best_ask e.market_depth) [
      | some (ask, _) ↦ some ((bid ⊕ ask) ⊘ of_ℕ 2)
      | none ↦ some bid
    ]
    | none ↦ elim (best_ask e.market_depth) [ some (ask, _) ↦ some ask | none ↦ none ]
  ]

  unfoldable pub limit_crosses : Side → D → MatchingEngine D → Bool
  limit_crosses buy price e = elim (best_ask e.market_depth) [
    | none ↦ false
    | some (ask, _) ↦ ask ≤? price
  ]
  limit_crosses sell price e = elim (best_bid e.market_depth) [
    | none ↦ false
    | some (bid, _) ↦ price ≤? bid
  ]

  -- the clock of the simulation, or a reading of the real one
  abbrev pub simulated_now : Time → MatchingEngine D → Time
  simulated_now wall e = unwrap_or e.clock wall

  abbrev pub activation_deadline : Time → MatchingEngine D → Time
  activation_deadline now e = now +ℤ e.latency

  unfoldable pub queue_ahead_for : Side → D → D → MatchingEngine D → D
  queue_ahead_for side price exclude_self e = elim e.queue_model [
    | optimistic ↦ nought
    | conservative ↦
        volume_at_level side price e.market_depth
        ⊕ max (volume_at_level side price e.resting_depth ⊖ exclude_self) nought
  ]

  -- `take_liquidity`, with a round for each level of the other side and one more
  unfoldable pub take_all : Side → D → LocalOrderBook D → List (D × D) × LocalOrderBook D
  take_all side quantity b =
      unwrap_or (take_liquidity (suc (length (side_of_book (inverse side) b))) side quantity b)
        ([], b)

  unfoldable pub drain_fills : MatchingEngine D → List (Fill D) × MatchingEngine D
  drain_fills e = (e.fills, record e { fills = [] })
