-- ===== src/Ledger/Journal.antt =====
-- tesser-ledger/src/journal.rs: the entries of a fill. `draw` is the identifier that is drawn for the
-- entry of a component, and `render` the text of a symbol.
use tesser.Prelude.{
  none, some, List, [], ◌∷◌, ◌++◌, if◌then◌else◌, unwrap_or, length, length-append, ◌≤◌, arith,
}
use tesser.Prelude.Bytes.{codes}
use tesser.Decimal.{Decimal, of_ℕ, ◌⊗◌, neg, is_zero}
use tesser.Core.Ids.{AssetId, Symbol}
use tesser.Core.Types.{
  Text, Uuid, Time, spot, linear_perpetual, inverse_perpetual, Side, buy, sell, Instrument, Fill,
}
use tesser.Ledger.{LedgerEntry, LedgerType, trade_realized_pnl, fee, adjustment, new}

pub record FillLedgerContext (D : Type 0) : Type 0 where
  pub fill : Fill D
  pub instrument : Instrument D
  pub realized_pnl : D

module _ {D : Type 0} ⦃d : Decimal D⦄ where
  -- `Decimal::from(side.as_i8())`
  abbrev pub direction_of : Side → D
  direction_of buy = of_ℕ 1
  direction_of sell = neg (of_ℕ 1)

  -- the asset of a fee that names none
  abbrev pub default_fee_asset : Instrument D → AssetId
  default_fee_asset i = elim i.kind [
    | spot ↦ i.quote
    | linear_perpetual ↦ i.settlement_currency
    | inverse_perpetual ↦ i.settlement_currency
  ]

module _ {D : Type 0} ⦃d : Decimal D⦄ (draw : Text → Uuid) (now : Time)
    (render : Symbol → Text) where
  -- The time of the entry is that of the fill, whatever `new` read from the clock.
  unfoldable pub build_entry : AssetId → D → Fill D → LedgerType → Text → LedgerEntry D
  build_entry asset amount f entry_type component =
      let entry = new (draw component) now asset.exchange asset amount entry_type f.order_id in
      record entry {
        meta = some (record { symbol = render f.symbol; component = component });
        timestamp = f.timestamp;
      }

  -- an entry, unless it moves nothing
  abbrev pub entry_of : AssetId → D → Fill D → LedgerType → Text → List (LedgerEntry D)
  entry_of asset amount f entry_type component =
      if is_zero amount then [] else build_entry asset amount f entry_type component ∷ []

  unfoldable pub spot_entries : Fill D → Instrument D → List (LedgerEntry D)
  spot_entries f i =
      let qty = f.fill_quantity in
      let notional = f.fill_price ⊗ qty in
      let base_delta : D = elim f.side [ buy ↦ qty | sell ↦ neg qty ] in
      let quote_delta : D = elim f.side [ buy ↦ neg notional | sell ↦ notional ] in
      entry_of i.base base_delta f adjustment (codes "base")
      ++ entry_of i.quote quote_delta f adjustment (codes "quote")

  unfoldable pub derivative_entries : Fill D → Instrument D → List (LedgerEntry D)
  derivative_entries f i =
      let notional = f.fill_price ⊗ f.fill_quantity in
      entry_of i.settlement_currency (neg (notional ⊗ direction_of f.side)) f adjustment
        (codes "settlement")

  abbrev pub trade_entries : Fill D → Instrument D → List (LedgerEntry D)
  trade_entries f i = elim i.kind [
    | spot ↦ spot_entries f i
    | linear_perpetual ↦ derivative_entries f i
    | inverse_perpetual ↦ derivative_entries f i
  ]

  -- The fee is tested before its sign is changed.
  abbrev pub fee_entries : Fill D → Instrument D → List (LedgerEntry D)
  fee_entries f i = elim f.fee [
    | none ↦ []
    | some amount ↦
        let asset = unwrap_or f.fee_asset (default_fee_asset i) in
        if is_zero amount then [] else build_entry asset (neg amount) f fee (codes "fee") ∷ []
  ]

  unfoldable pub entries_from_fill : FillLedgerContext D → List (LedgerEntry D)
  entries_from_fill ctx =
      trade_entries ctx.fill ctx.instrument
      ++ (entry_of ctx.instrument.settlement_currency ctx.realized_pnl ctx.fill trade_realized_pnl
            (codes "realized_pnl")
          ++ fee_entries ctx.fill ctx.instrument)

  few :
      (asset : AssetId) (amount : D) (f : Fill D) (t : LedgerType) (component : Text)
      → length (entry_of asset amount f t component) ≤ 1
  few asset amount f t component = ground arith

  trade-few : (f : Fill D) (i : Instrument D) → length (trade_entries f i) ≤ 2
  unfolding spot_entries derivative_entries
  trade-few f i = ground (arith, λ (x y : List (LedgerEntry D)). length-append x y)

  fee-few : (f : Fill D) (i : Instrument D) → length (fee_entries f i) ≤ 1
  fee-few f i = ground arith

  -- A fill has four entries at most.
  pub entries_from_fill-few : (ctx : FillLedgerContext D) → length (entries_from_fill ctx) ≤ 4
  unfolding entries_from_fill
  entries_from_fill-few ctx =
      let f = ctx.fill in
      let i = ctx.instrument in
      let profit =
        entry_of i.settlement_currency ctx.realized_pnl f trade_realized_pnl
          (codes "realized_pnl") in
      omega (
        arith,
        length-append (trade_entries f i) (profit ++ fee_entries f i),
        length-append profit (fee_entries f i),
        trade-few f i,
        few i.settlement_currency ctx.realized_pnl f trade_realized_pnl (codes "realized_pnl"),
        fee-few f i,
      )
