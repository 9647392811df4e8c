-- ===== src/Core/Types.antt =====
-- tesser-core/src/lib.rs: instruments, orders, fills, positions and signals. Prices and quantities
-- are decimals; a time stamp is a number of nanoseconds from the epoch, and a duration a number of
-- nanoseconds; a `Uuid` is its 128-bit value; texts are lists of bytes.
use tesser.Prelude.{ℕ, ◌≡◌, ◌↔◌, Bool, true, false, Option, List, arith}
use tesser.Prelude.Int.{ℤ}
use tesser.Core.Ids.{ExchangeId, AssetId, Symbol}

abbrev pub Time : Type 0
Time = ℤ

abbrev pub Duration : Type 0
Duration = ℤ

abbrev pub Uuid : Type 0
Uuid = ℕ

abbrev pub Text : Type 0
Text = List ℕ

pub data InstrumentKind : Type 0 where
  spot linear_perpetual inverse_perpetual : InstrumentKind

pub data Side : Type 0 where
  buy sell : Side

abbrev pub inverse : Side → Side
inverse buy = sell
inverse sell = buy

abbrev pub same_side : Side → Side → Bool
same_side buy buy = true
same_side sell sell = true
same_side _ _ = false

pub data OrderType : Type 0 where
  market limit stop_market : OrderType

pub data TimeInForce : Type 0 where
  good_til_canceled immediate_or_cancel fill_or_kill : TimeInForce

pub data OrderStatus : Type 0 where
  pending_new accepted partially_filled filled canceled rejected : OrderStatus

pub data SignalKind : Type 0 where
  enter_long exit_long enter_short exit_short flatten : SignalKind

-- `SignalKind::side`
abbrev pub side_of : SignalKind → Side
side_of enter_long = buy
side_of exit_short = buy
side_of enter_short = sell
side_of exit_long = sell
side_of flatten = sell

pub data Interval : Type 0 where
  one_second one_minute five_minutes fifteen_minutes one_hour four_hours one_day : Interval

module _ (D : Type 0) where
  pub record Candle : Type 0 where
    pub symbol : Symbol
    pub interval : Interval
    pub «open» : D
    pub high : D
    pub low : D
    pub close : D
    pub volume : D
    pub timestamp : Time

  pub record Instrument : Type 0 where
    pub symbol : Symbol
    pub base : AssetId
    pub quote : AssetId
    pub kind : InstrumentKind
    pub settlement_currency : AssetId
    pub tick_size : D
    pub lot_size : D

  pub record Tick : Type 0 where
    pub symbol : Symbol
    pub price : D
    pub size : D
    pub side : Side
    pub exchange_timestamp : Time
    pub received_at : Time

  pub record OrderRequest : Type 0 where
    pub symbol : Symbol
    pub side : Side
    pub order_type : OrderType
    pub quantity : D
    pub price : Option D
    pub trigger_price : Option D
    pub time_in_force : Option TimeInForce
    pub client_order_id : Option Text
    pub take_profit : Option D
    pub stop_loss : Option D
    pub display_quantity : Option D

  pub record OrderUpdateRequest : Type 0 where
    pub order_id : Text
    pub symbol : Symbol
    pub side : Side
    pub new_price : Option D
    pub new_quantity : Option D

  pub record Order : Type 0 where
    pub id : Text
    pub request : OrderRequest
    pub status : OrderStatus
    pub filled_quantity : D
    pub avg_fill_price : Option D
    pub created_at : Time
    pub updated_at : Time

  pub record Fill : Type 0 where
    pub order_id : Text
    pub symbol : Symbol
    pub side : Side
    pub fill_price : D
    pub fill_quantity : D
    pub fee : Option D
    pub fee_asset : Option AssetId
    pub timestamp : Time

  pub record Position : Type 0 where
    pub symbol : Symbol
    pub side : Option Side
    pub quantity : D
    pub entry_price : Option D
    pub unrealized_pnl : D
    pub updated_at : Time

  pub record AccountBalance : Type 0 where
    pub exchange : ExchangeId
    pub asset : AssetId
    pub total : D
    pub available : D
    pub updated_at : Time

  pub data ExecutionHint : Type 0 where
    twap : Duration → ExecutionHint
    vwap : Duration → Option D → ExecutionHint
    iceberg_simulated : D → Option D → ExecutionHint
    pegged_best : D → Option D → Option ℕ → Option D → ExecutionHint
    sniper : D → Option Duration → ExecutionHint
    trailing_stop : D → D → ExecutionHint
    -- the name of a plugin, and its JSON parameters as their text
    plugin : Text → Text → ExecutionHint

  pub data SignalPanicBehavior : Type 0 where
    market_close : SignalPanicBehavior
    aggressive_limit : D → SignalPanicBehavior

  -- All fields but `confidence`, a float that the modelled code never reads.
  pub record Signal : Type 0 where
    pub id : Uuid
    pub symbol : Symbol
    pub kind : SignalKind
    pub quantity : Option D
    pub group_id : Option Uuid
    pub panic_behavior : Option SignalPanicBehavior
    pub generated_at : Time
    pub note : Option Text
    pub stop_loss : Option D
    pub take_profit : Option D
    pub execution_hint : Option ExecutionHint

pub same_side_iff : (a b : Side) → (same_side a b ≡ true) ↔ (a ≡ b)
same_side_iff a b = ground arith
