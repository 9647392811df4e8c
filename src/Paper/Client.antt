-- ===== src/Paper/Client.antt =====
-- connectors/tesser-paper/src/lib.rs: `PaperExecutionClient`, which fills an order at once at the last
-- price. What it draws and reads is as for the matching engine.
use tesser.Prelude.{
  true, not, Option, none, some, List, [], ◌∷◌, ◌++◌, if◌then◌else◌, map, unwrap_or,
}
use tesser.Prelude.Result.{Result, ok, err}
use tesser.Prelude.HashMap.{HashMap, lookup, insert, entry_or}
use tesser.Prelude.Bytes.{codes, same_text}
use tesser.Decimal.{Decimal, nought, one, of_ℕ, ◌⊕◌, ◌⊖◌, ◌⊗◌, ◌⊘◌, ◌<?◌, ◌≤?◌, max, abs, is_zero}
use tesser.Core.Ids.{AssetId, Symbol, same_asset, same_symbol, symbol_key}
use tesser.Core.Types.{
  Text, Time, Side, buy, sell, same_side, market, limit, stop_market, good_til_canceled, filled,
  OrderRequest, OrderUpdateRequest, Order, Fill, Position, AccountBalance, Candle,
}
use tesser.Broker.{BrokerInfo, BrokerError, invalid_request}
use tesser.Paper.Conditional
use tesser.Paper.Conditional.{ConditionalOrderManager, TriggeredOrder, trigger_with_candle}
use tesser.Paper.Fees.{taker}
use tesser.Paper.Matching.{FeeModel}
use tesser.Paper.Matching.Booking.{charge_first, opened_by, move_position}
use tesser.Paper.Matching.Orders.{Stamp, Attached, build_pending_order, enqueue_exit}

module _ (D : Type 0) where
  pub record PaperExecutionClient : Type 0 where
    pub info : BrokerInfo
    pub orders : List (Order D)
    pub balances : List (AccountBalance D)
    pub positions : HashMap Symbol (Position D)
    pub conditional_orders : ConditionalOrderManager D
    pub last_prices : HashMap Symbol D
    pub slippage_bps : D
    pub fee_model : FeeModel D
    pub cash_asset : AssetId

module _ {D : Type 0} ⦃d : Decimal D⦄ where
  unfoldable pub with_cash_asset :
      (Symbol → Text)
      → Time
      → Text
      → List Symbol
      → D
      → FeeModel D
      → AssetId
      → PaperExecutionClient D
  with_cash_asset code now name markets slippage_bps fee_model cash_asset = record {
    info = record { name = name; markets = map code markets; supports_testnet = true };
    orders = [];
    balances =
        record {
          exchange = cash_asset.exchange;
          asset = cash_asset;
          total = of_ℕ 10000;
          available = of_ℕ 10000;
          updated_at = now;
        }
        ∷ [];
    positions = [];
    conditional_orders = record { orders = [] };
    last_prices = [];
    slippage_bps = slippage_bps;
    fee_model = fee_model;
    cash_asset = cash_asset;
  }

  unfoldable pub update_price : Symbol → D → PaperExecutionClient D → PaperExecutionClient D
  update_price symbol price c = record c { last_prices = insert symbol price c.last_prices }

  -- the first balance of the asset is set, or a new one comes last
  abbrev pub set_balance : AssetId → D → Time → List (AccountBalance D) → List (AccountBalance D)
  set_balance asset amount now [] =
      record {
        exchange = asset.exchange;
        asset = asset;
        total = amount;
        available = amount;
        updated_at = now;
      }
      ∷ []
  set_balance asset amount now (b ∷ balances) =
      if same_asset b.asset asset
      then record b { total = amount; available = amount; updated_at = now } ∷ balances
      else b ∷ set_balance asset amount now balances

  unfoldable pub initialize_balance :
      AssetId → D → Time → PaperExecutionClient D → PaperExecutionClient D
  initialize_balance asset amount now c = record c {
    cash_asset = asset;
    balances = set_balance asset amount now c.balances;
  }

  -- the price before slippage
  unfoldable pub base_price : OrderRequest D → PaperExecutionClient D → D
  base_price request c = elim request.order_type [
    | market ↦ elim (lookup request.symbol c.last_prices) [
      | some last ↦ last
      | none ↦ unwrap_or request.price one
    ]
    | limit ↦ unwrap_or request.price one
    | stop_market ↦ unwrap_or request.price one
  ]

  unfoldable pub slipped : Side → D → PaperExecutionClient D → D
  slipped side base c =
      if nought <? c.slippage_bps
      then (let rate = max c.slippage_bps nought ⊘ of_ℕ 10000 in
          elim side [ buy ↦ base ⊗ (one ⊕ rate) | sell ↦ base ⊗ (one ⊖ rate) ])
      else base

  unfoldable pub fill_order : Stamp → OrderRequest D → PaperExecutionClient D → Order D
  fill_order (id, now) request c = record {
    id = id;
    request = request;
    status = filled;
    filled_quantity = request.quantity;
    avg_fill_price = some (slipped request.side (base_price request c) c);
    created_at = now;
    updated_at = now;
  }

  unfoldable pub spawn_attached_orders :
      Attached → Order D → PaperExecutionClient D → PaperExecutionClient D
  spawn_attached_orders drawn o c = if abs o.request.quantity ≤? nought then c else record c {
    conditional_orders =
        enqueue_exit drawn.stop_loss o o.request.stop_loss (codes "-sl") (
          enqueue_exit drawn.take_profit o o.request.take_profit (codes "-tp")
            c.conditional_orders);
  }

  unfoldable pub apply_fill_accounting : Fill D → PaperExecutionClient D → PaperExecutionClient D
  apply_fill_accounting f c = record c {
    balances = charge_first c.cash_asset f c.balances;
    positions = entry_or f.symbol (opened_by f) (move_position f) c.positions;
  }

  -- a market or a limit order
  abbrev pub fill_now :
      Stamp
      → Attached
      → OrderRequest D
      → PaperExecutionClient D
      → Result BrokerError (Order D) × PaperExecutionClient D
  fill_now stamp drawn request c =
      let o = fill_order stamp request c in
      (ok o, spawn_attached_orders drawn o (record c { orders = c.orders ++ (o ∷ []) }))

  unfoldable pub place_order :
      Stamp
      → Attached
      → OrderRequest D
      → PaperExecutionClient D
      → Result BrokerError (Order D) × PaperExecutionClient D
  place_order stamp drawn request c = elim request.order_type [
    | market ↦ fill_now stamp drawn request c
    | limit ↦ fill_now stamp drawn request c
    | stop_market ↦ elim request.trigger_price [
      | none ↦ (err (invalid_request (codes "StopMarket order requires a trigger_price")), c)
      | some trigger_price ↦
          let o =
            build_pending_order stamp
              (record request { price = none; time_in_force = some good_til_canceled }) in
          (ok o, record c { conditional_orders = Conditional.push o c.conditional_orders })
    ]
  ]

  unfoldable pub cancel_order :
      Text
      → Symbol
      → PaperExecutionClient D
      → Result BrokerError (Unit {0}) × PaperExecutionClient D
  cancel_order order_id symbol c = (ok tt, c)

  abbrev pub new_price_of : Option D → Order D → Order D
  new_price_of none o = o
  new_price_of (some price) o = record o { request = record o.request { price = some price } }

  abbrev pub new_quantity_of : Option D → Order D → Order D
  new_quantity_of none o = o
  new_quantity_of (some quantity) o = record o {
    request = record o.request { quantity = quantity };
  }

  -- the first order of the identifier
  abbrev pub amend_first :
      Time → OrderUpdateRequest D → List (Order D) → Result BrokerError (Order D) × List (Order D)
  amend_first now request [] =
      (err (invalid_request (codes "order " ++ request.order_id ++ codes " not found")), [])
  amend_first now request (o ∷ orders) =
      let (answer, rest) = amend_first now request orders in
      if same_text o.id request.order_id
      then if not (same_symbol o.request.symbol request.symbol)
        then (err (invalid_request (codes "symbol mismatch for amend")), o ∷ orders)
        else if not (same_side o.request.side request.side)
        then (err (invalid_request (codes "side mismatch for amend")), o ∷ orders)
        else (let amended =
              record (new_quantity_of request.new_quantity (new_price_of request.new_price o)) {
                updated_at = now;
              } in
            (ok amended, amended ∷ orders))
      else (answer, o ∷ rest)

  unfoldable pub amend_order :
      Time
      → OrderUpdateRequest D
      → PaperExecutionClient D
      → Result BrokerError (Order D) × PaperExecutionClient D
  amend_order now request c =
      let (answer, orders) = amend_first now request c.orders in
      (answer, record c { orders = orders })

-- `code` is the text of a symbol
module _ {D : Type 0} ⦃d : Decimal D⦄ (code : Symbol → Text) where
  unfoldable pub compute_fee : Symbol → Side → D → D → PaperExecutionClient D → D
  compute_fee symbol side price qty c =
      max (c.fee_model (record { symbol = code symbol; side = side; role = taker }) price qty)
        nought

  unfoldable pub create_fill_from_order : Order D → D → Time → PaperExecutionClient D → Fill D
  create_fill_from_order o fill_price timestamp c =
      let r = o.request in
      let fee = compute_fee r.symbol r.side fill_price (abs r.quantity) c in
      record {
        order_id = o.id;
        symbol = r.symbol;
        side = r.side;
        fill_price = fill_price;
        fill_quantity = r.quantity;
        fee = if is_zero fee then none else some fee;
        fee_asset = if is_zero fee then none else some c.cash_asset;
        timestamp = timestamp;
      }

  unfoldable pub check_triggers :
      Candle D → PaperExecutionClient D → List (Fill D) × PaperExecutionClient D
  check_triggers candle c =
      let (orders, triggered) = trigger_with_candle candle c.conditional_orders in
      (
        map (λ (t : TriggeredOrder D). create_fill_from_order t.order t.fill_price t.timestamp c)
            triggered,
        record c { conditional_orders = orders },
      )
