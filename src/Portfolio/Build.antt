-- ===== src/Portfolio/Build.antt =====
-- tesser-portfolio/src/lib.rs: the portfolio of a configuration, of exchange balances, and of a
-- persisted state. `code` is the code of an asset in the registry of identifiers.
use tesser.Prelude.{Bool, false, Option, none, some, List, [], ◌∷◌, filter, or_else, if◌then◌else◌}
use tesser.Prelude.HashMap.{HashMap, insert, entry_or}
use tesser.Prelude.Key.{nat_key}
use tesser.Decimal.{Decimal, nought, ◌<?◌, is_zero, max}
use tesser.Core.Ids.{ExchangeId, AssetId, is_specified, asset_key, Symbol, symbol_key}
use tesser.Core.Types.{Text, Position, AccountBalance}
use tesser.Core.Cash.{CashBook, upsert}
use tesser.Portfolio.{
  Portfolio, PortfolioConfig, SubAccount, empty_account, cash_value, update_drawdown_state,
  conversion_rate_for_currency, ensure_currency, with_account, ensure_reporting_currency_entries,
}

-- `SubAccountState` keeps the fields of `SubAccount`.
pub record PortfolioState (D : Type 0) : Type 0 where
  pub positions : HashMap Symbol (Position D)
  pub balances : CashBook D
  pub reporting_currency : AssetId
  pub initial_equity : D
  pub drawdown_limit : Option D
  pub peak_equity : D
  pub liquidate_only : Bool
  pub sub_accounts : HashMap ExchangeId (SubAccount D)

module _ {D : Type 0} ⦃d : Decimal D⦄ (code : AssetId → Text) where
  -- a balance put in an account, at the rate of its currency
  abbrev hold : AssetId → AssetId → D → SubAccount D → SubAccount D
  hold reporting currency amount a =
      let a' = ensure_currency code reporting currency a in
      record a' {
        balances =
            upsert
              (record {
                currency = currency;
                quantity = amount;
                conversion_rate = conversion_rate_for_currency code currency reporting;
              })
              a'.balances;
      }

  -- the equity of the start, which is the first peak
  abbrev start_equity : Portfolio D → Portfolio D
  start_equity p = record p { initial_equity = cash_value p; peak_equity = cash_value p }

  abbrev entry_account :
      ExchangeId
      → (SubAccount D → SubAccount D)
      → HashMap ExchangeId (SubAccount D)
      → HashMap ExchangeId (SubAccount D)
  entry_account e f accounts = entry_or e (empty_account e) f accounts

  abbrev initial_accounts :
      AssetId
      → HashMap AssetId D
      → HashMap ExchangeId (SubAccount D)
      → HashMap ExchangeId (SubAccount D)
  initial_accounts reporting [] accounts = accounts
  initial_accounts reporting ((currency, amount) ∷ balances) accounts =
      initial_accounts reporting balances
        (entry_account currency.exchange (hold reporting currency amount) accounts)

  unfoldable pub new : PortfolioConfig D → Portfolio D
  new config = start_equity (
      ensure_reporting_currency_entries code (record {
        sub_accounts = initial_accounts config.reporting_currency config.initial_balances [];
        reporting_currency = config.reporting_currency;
        initial_equity = nought;
        drawdown_limit = filter (λ (v : D). nought <? v) config.max_drawdown;
        peak_equity = nought;
        liquidate_only = false;
      }))

  abbrev put_position : Symbol → Position D → SubAccount D → SubAccount D
  put_position symbol q a = record a { positions = insert symbol q a.positions }

  abbrev put_positions : List (Position D) → Portfolio D → Portfolio D
  put_positions [] p = p
  put_positions (q ∷ qs) p =
      let p' = with_account code q.symbol.exchange (put_position q.symbol q) p in
      put_positions qs (if is_zero q.quantity then p else p')

  abbrev put_balances : List (AccountBalance D) → Portfolio D → Portfolio D
  put_balances [] p = p
  put_balances (b ∷ bs) p =
      let e = if is_specified b.exchange then b.exchange else b.asset.exchange in
      put_balances bs (with_account code e (hold p.reporting_currency b.asset b.available) p)

  unfoldable pub from_exchange_state :
      List (Position D)
      → List (AccountBalance D)
      → PortfolioConfig D
      → Option (PortfolioState D)
      → Portfolio D
  from_exchange_state positions balances config preserved =
      let cleared = record (new config) { sub_accounts = [] } in
      let p = update_drawdown_state (
        start_equity (
          ensure_reporting_currency_entries code
            (put_balances balances (put_positions positions cleared)))) in
      elim preserved [
        | none ↦ p
        | some state ↦ record p { peak_equity = max state.peak_equity p.initial_equity }
      ]

  -- the accounts of a state that has none, from its merged positions and balances
  abbrev restore_positions : HashMap Symbol (Position D) → Portfolio D → Portfolio D
  restore_positions [] p = p
  restore_positions ((symbol, q) ∷ qs) p =
      restore_positions qs (with_account code symbol.exchange (put_position symbol q) p)

  abbrev restore_balances : CashBook D → Portfolio D → Portfolio D
  restore_balances [] p = p
  restore_balances ((asset, cash) ∷ cs) p =
      let put = λ (a : SubAccount D). record a { balances = upsert cash a.balances } in
      restore_balances cs (with_account code asset.exchange put p)

  abbrev restore_accounts :
      HashMap ExchangeId (SubAccount D)
      → HashMap ExchangeId (SubAccount D)
      → HashMap ExchangeId (SubAccount D)
  restore_accounts [] accounts = accounts
  restore_accounts ((e, a) ∷ as') accounts =
      restore_accounts as' (insert e (record a { exchange = e }) accounts)

  unfoldable pub from_state : PortfolioState D → PortfolioConfig D → Portfolio D
  from_state state config =
      let bare : Portfolio D = record {
        sub_accounts = [];
        reporting_currency = state.reporting_currency;
        initial_equity = state.initial_equity;
        drawdown_limit =
            or_else (filter (λ (v : D). nought <? v) config.max_drawdown) state.drawdown_limit;
        peak_equity = max state.peak_equity state.initial_equity;
        liquidate_only = state.liquidate_only;
      } in
      let p : Portfolio D = elim state.sub_accounts [
        | [] ↦ restore_balances state.balances (restore_positions state.positions bare)
        | _ ↦ record bare { sub_accounts = restore_accounts state.sub_accounts [] }
      ] in
      update_drawdown_state (ensure_reporting_currency_entries code p)
