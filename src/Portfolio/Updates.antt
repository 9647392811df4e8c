-- ===== src/Portfolio/Updates.antt =====
-- tesser-portfolio/src/lib.rs: fills, ledger entries and prices applied to the portfolio. `code` is the
-- code of an asset in the registry of identifiers, `get` the market registry, `now` the clock.
pub mod Fills
pub mod Closed
use tesser.Prelude.{
  Bool, not, ◌&&◌, Option, none, some, List, [], ◌∷◌, unwrap_or, is_some, if◌then◌else◌,
}
use tesser.Prelude.HashMap.{HashMap, lookup, insert}
use tesser.Prelude.Result.{Result, ok, err}
use tesser.Prelude.Key.{nat_key}
use tesser.Decimal.{Decimal, nought, one, ◌⊗◌, ◌⊘◌, ◌<?◌, is_zero}
use tesser.Core.Ids.{ExchangeId, AssetId, same_asset, asset_key, Symbol, symbol_key}
use tesser.Core.Types.{Text, Time, Instrument, Position, Fill}
use tesser.Core.Cash.{adjust, update_conversion_rate}
use tesser.Ledger.{LedgerEntry}
use tesser.Portfolio.{
  Portfolio, SubAccount, PortfolioError, unknown_symbol, update_drawdown_state, ensure_currency,
  with_account,
}
use tesser.Portfolio.Holding.{fill_position, realized_delta, update_unrealized, signed}

-- `FillLedgerImpact`
pub record FillLedgerImpact (D : Type 0) : Type 0 where
  pub realized_pnl : D

module _ {D : Type 0} ⦃d : Decimal D⦄ where
  -- The position that a fill finds or opens.
  abbrev pub opened : Fill D → HashMap Symbol (Position D) → Position D
  opened f positions = unwrap_or (lookup f.symbol positions) (record {
    symbol = f.symbol;
    side = some f.side;
    quantity = nought;
    entry_price = some f.fill_price;
    unrealized_pnl = nought;
    updated_at = f.timestamp;
  })

  unfoldable pub position : Symbol → Portfolio D → Option (Position D)
  position symbol p = elim (lookup symbol.exchange p.sub_accounts) [
    | none ↦ none
    | some a ↦ lookup symbol a.positions
  ]

  unfoldable pub signed_position_qty : Symbol → Portfolio D → D
  unfolding position signed
  signed_position_qty symbol p = elim (position symbol p) [ none ↦ nought | some q ↦ signed q ]

module _ {D : Type 0} ⦃d : Decimal D⦄ (code : AssetId → Text) where
  -- the account of the fill, with the currencies of the instrument
  abbrev prepare : AssetId → Instrument D → SubAccount D → SubAccount D
  prepare reporting i a = ensure_currency code reporting i.quote (
      ensure_currency code reporting i.base
        (ensure_currency code reporting i.settlement_currency a))

  abbrev pub fill_account : AssetId → Instrument D → Fill D → SubAccount D → SubAccount D
  fill_account reporting i f a =
      let a' = prepare reporting i a in
      record a' {
        positions = insert f.symbol (fill_position f (opened f a'.positions)) a'.positions;
      }

  -- The positions of the exchange that the fill is on, or none if there is no account yet.
  abbrev pub positions_on : ExchangeId → Portfolio D → HashMap Symbol (Position D)
  positions_on e p = elim (lookup e p.sub_accounts) [ none ↦ [] | some a ↦ a.positions ]

  unfoldable pub apply_fill_positions :
      (Symbol → Option (Instrument D))
      → Fill D
      → Portfolio D
      → Result PortfolioError (Portfolio D × FillLedgerImpact D)
  apply_fill_positions get f p = elim (get f.symbol) [
    | none ↦ err (unknown_symbol f.symbol)
    | some i ↦ ok (
      update_drawdown_state
          (with_account code f.symbol.exchange (fill_account p.reporting_currency i f) p),
      record {
        realized_pnl = realized_delta i.kind f (opened f (positions_on f.symbol.exchange p));
      },
    )
  ]

  abbrev pub book_entry : AssetId → LedgerEntry D → SubAccount D → SubAccount D
  book_entry reporting entry a =
      let a' = ensure_currency code reporting entry.asset a in
      record a' { balances = adjust entry.asset entry.amount a'.balances }

  abbrev pub book_entries : List (LedgerEntry D) → Portfolio D → Portfolio D
  book_entries [] p = p
  book_entries (entry ∷ entries) p =
      book_entries entries
        (with_account code entry.exchange (book_entry p.reporting_currency entry) p)

  unfoldable pub apply_ledger_entries : List (LedgerEntry D) → Portfolio D → Portfolio D
  apply_ledger_entries entries p = update_drawdown_state (book_entries entries p)

  abbrev set_rate : AssetId → D → SubAccount D → SubAccount D
  set_rate asset rate a = record a { balances = update_conversion_rate asset rate a.balances }

  abbrev rate_of : AssetId → SubAccount D → D
  rate_of asset a = elim (lookup asset a.balances) [
    | none ↦ nought
    | some cash ↦ cash.conversion_rate
  ]

  -- the rates of an instrument that does not trade against the reporting currency
  abbrev cross_rates : AssetId → Instrument D → D → SubAccount D → SubAccount D
  cross_rates reporting i price a =
      let quote_rate = rate_of i.quote a in
      let a₁ =
        if nought <? quote_rate
        then set_rate i.base (price ⊗ quote_rate) (ensure_currency code reporting i.base a)
        else a in
      let base_rate = rate_of i.base a₁ in
      if (nought <? base_rate) && not (is_zero price)
      then set_rate i.quote (base_rate ⊘ price) (ensure_currency code reporting i.quote a₁)
      else a₁

  unfoldable pub update_conversion_rates : AssetId → Instrument D → D → SubAccount D → SubAccount D
  update_conversion_rates reporting i price a =
      if same_asset i.quote reporting
      then set_rate i.quote one (
          set_rate i.base price
            (ensure_currency code reporting i.quote (ensure_currency code reporting i.base a)))
      else if same_asset i.base reporting && not (is_zero price)
      then set_rate i.quote (one ⊘ price) (
          set_rate i.base one
            (ensure_currency code reporting i.base (ensure_currency code reporting i.quote a)))
      else cross_rates reporting i price a

  abbrev pub mark_account : Time → Symbol → AssetId → Instrument D → D → SubAccount D → SubAccount D
  mark_account now symbol reporting i price a =
      let marked : SubAccount D = elim (lookup symbol a.positions) [
        | none ↦ a
        | some q ↦ record a {
          positions = insert symbol (update_unrealized now i.kind price q) a.positions;
        }
      ] in
      update_conversion_rates reporting i price marked

  -- The portfolio, and whether there was a position to mark.
  unfoldable pub update_market_data :
      (Symbol → Option (Instrument D))
      → Time
      → Symbol
      → D
      → Portfolio D
      → Result PortfolioError (Portfolio D × Bool)
  update_market_data get now symbol price p = elim (get symbol) [
    | none ↦ err (unknown_symbol symbol)
    | some i ↦ ok (
      update_drawdown_state (
          with_account code symbol.exchange (mark_account now symbol p.reporting_currency i price)
            p),
      is_some (lookup symbol (positions_on symbol.exchange p)),
    )
  ]
