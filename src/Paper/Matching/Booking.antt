-- ===== src/Paper/Matching/Booking.antt =====
-- connectors/tesser-paper/src/lib.rs: what a fill of the matching engine costs, and its booking.
use tesser.Prelude.{none, some, List, [], ◌∷◌, if◌then◌else◌, unwrap_or}
use tesser.Prelude.HashMap.{entry_or}
use tesser.Decimal.{Decimal, nought, ◌⊕◌, ◌⊖◌, ◌⊗◌, ◌⊘◌, ◌≤?◌, max, is_zero}
use tesser.Core.Ids.{AssetId, Symbol, same_asset, symbol_key}
use tesser.Core.Types.{Text, Time, Side, buy, sell, same_side, Fill, Position, AccountBalance}
use tesser.Paper.Fees.{LiquidityRole}
use tesser.Paper.Matching.{MatchingEngine}

module _ {D : Type 0} ⦃d : Decimal D⦄ where
  unfoldable pub build_fill : Text → Symbol → Side → D → D → D → Time → MatchingEngine D → Fill D
  build_fill order_id symbol side price qty fee timestamp e = record {
    order_id = order_id;
    symbol = symbol;
    side = side;
    fill_price = price;
    fill_quantity = qty;
    fee = if is_zero fee then none else some fee;
    fee_asset = if is_zero fee then none else some e.cash_asset;
    timestamp = timestamp;
  }

  abbrev pub charge : Fill D → AccountBalance D → AccountBalance D
  charge f b =
      let notional = f.fill_price ⊗ f.fill_quantity in
      let fee = unwrap_or f.fee nought in
      let available : D = elim f.side [
        | buy ↦ b.available ⊖ (notional ⊕ fee)
        | sell ↦ b.available ⊕ (notional ⊖ fee)
      ] in
      record b { available = available; total = available; updated_at = f.timestamp }

  -- the first balance of the asset
  abbrev pub charge_first : AssetId → Fill D → List (AccountBalance D) → List (AccountBalance D)
  charge_first asset f [] = []
  charge_first asset f (b ∷ balances) =
      if same_asset b.asset asset then charge f b ∷ balances else b ∷ charge_first asset f balances

  abbrev pub opened_by : Fill D → Position D
  opened_by f = record {
    symbol = f.symbol;
    side = some f.side;
    quantity = nought;
    entry_price = some f.fill_price;
    unrealized_pnl = nought;
    updated_at = f.timestamp;
  }

  unfoldable pub move_position : Fill D → Position D → Position D
  move_position f p = elim p.side [
    | none ↦ record p {
      side = some f.side;
      quantity = f.fill_quantity;
      entry_price = some f.fill_price;
      updated_at = f.timestamp;
    }
    | some side ↦
        if same_side side f.side
        then (let total = p.quantity ⊕ f.fill_quantity in
            let prev_cost : D = elim p.entry_price [
              | none ↦ nought
              | some price ↦ price ⊗ p.quantity
            ] in
            let new_cost = f.fill_price ⊗ f.fill_quantity in
            record p {
              quantity = total;
              entry_price =
                  some (if is_zero total then f.fill_price else (prev_cost ⊕ new_cost) ⊘ total);
              updated_at = f.timestamp;
            })
        else (let rest = p.quantity ⊖ f.fill_quantity in
            if rest ≤? nought
            then record p {
              side = none;
              quantity = nought;
              entry_price = none;
              updated_at = f.timestamp;
            }
            else record p { quantity = rest; updated_at = f.timestamp })
  ]

  unfoldable pub apply_fill_accounting : Fill D → MatchingEngine D → MatchingEngine D
  apply_fill_accounting f e = record e {
    balances = charge_first e.cash_asset f e.balances;
    positions = entry_or f.symbol (opened_by f) (move_position f) e.positions;
  }

-- `code` is the text of a symbol
module _ {D : Type 0} ⦃d : Decimal D⦄ (code : Symbol → Text) where
  unfoldable pub compute_fee : Symbol → Side → LiquidityRole → D → D → MatchingEngine D → D
  compute_fee symbol side role price qty e =
      max (e.fee_model (record { symbol = code symbol; side = side; role = role }) price qty) nought
