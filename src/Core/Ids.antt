-- ===== src/Core/Ids.antt =====
-- tesser-core/src/identifiers.rs: the interned identifiers, as the numbers that they hold. An
-- identifier's text is kept in a global registry, which the program reads and never changes.
use tesser.Prelude.{ℕ, ◌≡◌, ◌↔◌, Bool, true, ◌&&◌, arith, ◌==◌, not}
use tesser.Prelude.Key.{Key}

-- `ExchangeId(u16)`, and `ExchangeId::UNSPECIFIED`
abbrev pub ExchangeId : Type 0
ExchangeId = ℕ

abbrev pub unspecified : ExchangeId
unspecified = 0

abbrev pub is_specified : ExchangeId → Bool
is_specified e = not (e == unspecified)

pub record AssetId : Type 0 where
  pub exchange : ExchangeId
  pub asset_id : ℕ

pub record Symbol : Type 0 where
  pub exchange : ExchangeId
  pub market_id : ℕ

-- `derive(PartialEq)`
abbrev pub same_asset : AssetId → AssetId → Bool
same_asset a b = (a.exchange == b.exchange) && (a.asset_id == b.asset_id)

abbrev pub same_symbol : Symbol → Symbol → Bool
same_symbol a b = (a.exchange == b.exchange) && (a.market_id == b.market_id)

pub same_asset_iff : (a b : AssetId) → (same_asset a b ≡ true) ↔ (a ≡ b)
same_asset_iff a b = ground arith

pub same_symbol_iff : (a b : Symbol) → (same_symbol a b ≡ true) ↔ (a ≡ b)
same_symbol_iff a b = ground arith

instance abbrev pub asset_key : Key AssetId
asset_key = record { same = same_asset; same_iff = same_asset_iff }

instance abbrev pub symbol_key : Key Symbol
symbol_key = record { same = same_symbol; same_iff = same_symbol_iff }
