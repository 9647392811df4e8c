-- ===== src/Portfolio.antt =====
-- tesser-portfolio/src/lib.rs: sub-accounts, equity and the drawdown switch. `code` is the code of an
-- asset in the global registry of identifiers.
pub mod Holding
pub mod Updates
pub mod Drawdown
pub mod Build
pub mod Perpetual
pub mod Tests
use tesser.Prelude.{
  Bool, true, false, ◌&&◌, ◌||◌, ◌==◌, Option, none, some, List, [], ◌∷◌, ◌++◌, map, if◌then◌else◌,
}
use tesser.Prelude.HashMap.{HashMap, entry_or, values}
use tesser.Prelude.Bytes.{same_text}
use tesser.Prelude.Key.{nat_key}
use tesser.Decimal.{Decimal, nought, one, ◌⊕◌, ◌⊖◌, ◌⊘◌, ◌<?◌, ◌≤?◌}
use tesser.Core.Ids.{ExchangeId, unspecified, AssetId, same_asset, asset_key, Symbol}
use tesser.Core.Types.{Text, Position}
use tesser.Core.Cash.{Cash, CashBook, sum, total_value}

pub data PortfolioError : Type 0 where
  unknown_symbol : Symbol → PortfolioError
  internal : Text → PortfolioError

pub record PortfolioConfig (D : Type 0) : Type 0 where
  pub initial_balances : HashMap AssetId D
  pub reporting_currency : AssetId
  pub max_drawdown : Option D

pub record SubAccount (D : Type 0) : Type 0 where
  pub exchange : ExchangeId
  pub balances : CashBook D
  pub positions : HashMap Symbol (Position D)

abbrev pub empty_account : {D : Type 0} → ExchangeId → SubAccount D
empty_account e = record { exchange = e; balances = []; positions = [] }

-- All fields but `market_registry`, a registry that the functions take as the lookup that they call.
pub record Portfolio (D : Type 0) : Type 0 where
  pub sub_accounts : HashMap ExchangeId (SubAccount D)
  pub reporting_currency : AssetId
  pub initial_equity : D
  pub drawdown_limit : Option D
  pub peak_equity : D
  pub liquidate_only : Bool

module _ {D : Type 0} ⦃d : Decimal D⦄ where
  abbrev pub positions_of : HashMap ExchangeId (SubAccount D) → List (Position D)
  positions_of [] = []
  positions_of ((_, a) ∷ accounts) = values a.positions ++ positions_of accounts

  unfoldable pub cash_value : Portfolio D → D
  cash_value p = sum (map (λ (a : SubAccount D). total_value a.balances) (values p.sub_accounts))

  unfoldable pub total_unrealized : Portfolio D → D
  total_unrealized p =
      sum (map (λ (q : Position D). q.unrealized_pnl) (positions_of p.sub_accounts))

  unfoldable pub equity : Portfolio D → D
  equity p = cash_value p ⊕ total_unrealized p

  unfoldable pub realized_pnl : Portfolio D → D
  realized_pnl p = equity p ⊖ p.initial_equity ⊖ total_unrealized p

  -- the state of the switch after the peak is raised
  abbrev pub check_limit : D → Portfolio D → Portfolio D
  check_limit equity p = elim p.drawdown_limit [
    | none ↦ p
    | some limit ↦
        let drawdown = (p.peak_equity ⊖ equity) ⊘ p.peak_equity in
        if (nought <? p.peak_equity) && (limit ≤? drawdown)
        then record p { liquidate_only = true }
        else p
  ]

  unfoldable pub update_drawdown_state : Portfolio D → Portfolio D
  update_drawdown_state p =
      let now = equity p in
      check_limit now (if p.peak_equity <? now then record p { peak_equity = now } else p)

  -- The portfolio, and whether the flag changed.
  unfoldable pub set_liquidate_only : Bool → Portfolio D → Portfolio D × Bool
  set_liquidate_only true p =
      if p.liquidate_only then (p, false) else (record p { liquidate_only = true }, true)
  set_liquidate_only false p =
      if p.liquidate_only then (record p { liquidate_only = false }, true) else (p, false)

unfoldable pub matches_reporting_currency : (AssetId → Text) → AssetId → AssetId → Bool
matches_reporting_currency code currency reporting =
    same_asset currency reporting
    || (reporting.exchange == unspecified) && same_text (code currency) (code reporting)

module _ {D : Type 0} ⦃d : Decimal D⦄ (code : AssetId → Text) where
  unfoldable pub conversion_rate_for_currency : AssetId → AssetId → D
  conversion_rate_for_currency currency reporting =
      if matches_reporting_currency code currency reporting then one else nought

  unfoldable pub ensure_currency : AssetId → AssetId → SubAccount D → SubAccount D
  ensure_currency reporting currency a =
      let missing : Cash D = record {
        currency = currency;
        quantity = nought;
        conversion_rate = conversion_rate_for_currency currency reporting;
      } in
      record a { balances = entry_or currency missing (λ c. c) a.balances }

  -- The portfolio with `f` applied to the account that `account_mut` finds or opens.
  unfoldable pub with_account :
      ExchangeId → (SubAccount D → SubAccount D) → Portfolio D → Portfolio D
  with_account e f p =
      let opened = ensure_currency p.reporting_currency p.reporting_currency (empty_account e) in
      record p { sub_accounts = entry_or e opened f p.sub_accounts }

  abbrev each_account :
      (SubAccount D → SubAccount D)
      → HashMap ExchangeId (SubAccount D)
      → HashMap ExchangeId (SubAccount D)
  each_account f [] = []
  each_account f ((e, a) ∷ accounts) = (e, f a) ∷ each_account f accounts

  unfoldable pub ensure_reporting_currency_entries : Portfolio D → Portfolio D
  ensure_reporting_currency_entries p =
      let reporting = p.reporting_currency in
      record p { sub_accounts = each_account (ensure_currency reporting reporting) p.sub_accounts }
