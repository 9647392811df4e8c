-- ===== src/Reconcile.antt =====
-- tesser-cli/src/reconcile: `StateDiffer`, which compares the recorded state with the exchange's. The
-- keys of a hash set and of a hash map are gone through in the order of a list.
pub mod Distinct
pub mod Exact
pub mod Orders
mod Tests
use tesser.Prelude.{Bool, Option, none, some, List, [], ◌∷◌, if◌then◌else◌, map}
use tesser.Prelude.Key.{Key}
use tesser.Prelude.HashMap.{HashMap, lookup, insert, remove, values}
use tesser.Prelude.Bytes.{text_key}
use tesser.Decimal.{Decimal, nought, neg, ◌⊖◌, ◌=?◌}
use tesser.Core.Ids.{ExchangeId, AssetId, Symbol, asset_key, symbol_key}
use tesser.Core.Types.{Text, buy, sell, Order, Position, AccountBalance}
use tesser.Core.Cash.{CashBook}
use tesser.Portfolio.{SubAccount}

module _ {ℓ κ} {K : Type ℓ} {V : Type κ} where
  abbrev pub keys : HashMap K V → List K
  keys [] = []
  keys ((k, v) ∷ m) = k ∷ keys m

  -- a loop that skips some keys
  abbrev pub each_key : (K → Option V) → List K → List V
  each_key f [] = []
  each_key f (k ∷ ks) = let rest = each_key f ks in elim (f k) [ none ↦ rest | some v ↦ v ∷ rest ]

module _ {ℓ} {K : Type ℓ} ⦃e : Key K⦄ where
  -- `HashSet::insert` and `HashSet::extend`
  abbrev pub add_key : K → List K → List K
  add_key k [] = k ∷ []
  add_key k (j ∷ js) = if e.same k j then j ∷ js else j ∷ add_key k js

  abbrev pub extend : List K → List K → List K
  extend [] set = set
  extend (k ∷ ks) set = extend ks (add_key k set)

module _ {ℓ κ} {K : Type ℓ} {V : Type κ} ⦃e : Key K⦄ where
  -- `collect` into a hash map, and the loop of insertions
  abbrev pub index_from : (V → K) → List V → HashMap K V → HashMap K V
  index_from key [] m = m
  index_from key (v ∷ vs) m = index_from key vs (insert (key v) v m)

module _ (D : Type 0) where
  pub record PortfolioState : Type 0 where
    pub positions : HashMap Symbol (Position D)
    pub balances : CashBook D
    pub reporting_currency : AssetId
    pub initial_equity : D
    pub drawdown_limit : Option D
    pub peak_equity : D
    pub liquidate_only : Bool
    pub sub_accounts : HashMap ExchangeId (SubAccount D)

  pub record LocalSnapshot : Type 0 where
    pub portfolio : Option (PortfolioState)
    pub open_orders : List (Order D)

  pub record ExchangeSnapshot : Type 0 where
    pub positions : List (Position D)
    pub balances : List (AccountBalance D)
    pub open_orders : List (Order D)

  pub record OrderPair : Type 0 where
    pub local : Order D
    pub remote : Order D

  pub record OrderDiff : Type 0 where
    pub matched : List OrderPair
    pub ghosts : List (Order D)
    pub zombies : List (Order D)

  pub record PositionDiscrepancy : Type 0 where
    pub symbol : Symbol
    pub local : Option (Position D)
    pub remote : Option (Position D)
    pub local_signed : D
    pub remote_signed : D
    pub delta : D

  pub record PositionDiff : Type 0 where
    pub discrepancies : List PositionDiscrepancy

  pub record BalanceDiscrepancy : Type 0 where
    pub asset : AssetId
    pub local_available : Option D
    pub remote_available : Option D
    pub delta : D

  pub record BalanceDiff : Type 0 where
    pub discrepancies : List BalanceDiscrepancy

  pub record ReconciliationReport : Type 0 where
    pub local : LocalSnapshot
    pub remote : ExchangeSnapshot
    pub order_diff : OrderDiff
    pub position_diff : PositionDiff
    pub balance_diff : BalanceDiff

module _ {D : Type 0} where
  -- the loop of `diff_orders` over the local orders
  abbrev match_orders : List (Order D) → HashMap Text (Order D) → OrderDiff D
  match_orders [] index = record { matched = []; ghosts = []; zombies = values index }
  match_orders (o ∷ orders) index = elim (lookup o.id index) [
    | some r ↦
        let rest = match_orders orders (remove o.id index) in
        record rest { matched = record { local = o; remote = r } ∷ rest.matched }
    | none ↦ let rest = match_orders orders index in record rest { ghosts = o ∷ rest.ghosts }
  ]

  unfoldable pub diff_orders : List (Order D) → List (Order D) → OrderDiff D
  diff_orders local remote = match_orders local (index_from (λ (o : Order D). o.id) remote [])

module _ {D : Type 0} ⦃d : Decimal D⦄ where
  unfoldable pub signed_quantity : Position D → D
  signed_quantity p = elim p.side [
    | none ↦ nought
    | some side ↦ elim side [ buy ↦ p.quantity | sell ↦ neg p.quantity ]
  ]

  unfoldable pub signed_or_zero : Option (Position D) → D
  signed_or_zero none = nought
  signed_or_zero (some p) = signed_quantity p

  abbrev pub local_position : LocalSnapshot D → Symbol → Option (Position D)
  local_position local symbol = elim local.portfolio [
    | none ↦ none
    | some p ↦ lookup symbol p.positions
  ]

  abbrev pub remote_position : ExchangeSnapshot D → Symbol → Option (Position D)
  remote_position remote symbol =
      lookup symbol (index_from (λ (p : Position D). p.symbol) remote.positions [])

  abbrev pub local_symbols : LocalSnapshot D → List Symbol
  local_symbols local = elim local.portfolio [ none ↦ [] | some p ↦ extend (keys p.positions) [] ]

  abbrev pub position_symbols : LocalSnapshot D → ExchangeSnapshot D → List Symbol
  position_symbols local remote =
      extend (map (λ (p : Position D). p.symbol) remote.positions) (local_symbols local)

  -- the body of the loop of `diff_positions`, and what it does with the two positions
  abbrev pub position_entry :
      Symbol → Option (Position D) → Option (Position D) → Option (PositionDiscrepancy D)
  position_entry symbol local remote =
      if signed_or_zero local =? signed_or_zero remote
      then none
      else some (record {
        symbol = symbol;
        local = local;
        remote = remote;
        local_signed = signed_or_zero local;
        remote_signed = signed_or_zero remote;
        delta = signed_or_zero local ⊖ signed_or_zero remote;
      })

  abbrev pub position_discrepancy :
      LocalSnapshot D → ExchangeSnapshot D → Symbol → Option (PositionDiscrepancy D)
  position_discrepancy local remote symbol =
      position_entry symbol (local_position local symbol) (remote_position remote symbol)

  unfoldable pub diff_positions : LocalSnapshot D → ExchangeSnapshot D → PositionDiff D
  diff_positions local remote = record {
    discrepancies = each_key (position_discrepancy local remote) (position_symbols local remote);
  }

  abbrev pub local_cash : LocalSnapshot D → AssetId → Option D
  local_cash local asset = elim local.portfolio [
    | none ↦ none
    | some p ↦ elim (lookup asset p.balances) [ none ↦ none | some c ↦ some c.quantity ]
  ]

  abbrev pub remote_cash : ExchangeSnapshot D → AssetId → Option D
  remote_cash remote asset =
      elim (lookup asset (index_from (λ (b : AccountBalance D). b.asset) remote.balances [])) [
        | none ↦ none
        | some b ↦ some b.available
      ]

  abbrev pub or_zero : Option D → D
  or_zero none = nought
  or_zero (some q) = q

  abbrev pub balance_assets : LocalSnapshot D → ExchangeSnapshot D → List AssetId
  balance_assets local remote =
      extend (map (λ (b : AccountBalance D). b.asset) remote.balances)
        (elim local.portfolio [ none ↦ [] | some p ↦ extend (keys p.balances) [] ])

  -- the body of the loop of `diff_balances`
  abbrev pub balance_discrepancy :
      LocalSnapshot D → ExchangeSnapshot D → AssetId → Option (BalanceDiscrepancy D)
  balance_discrepancy local remote asset =
      let l = local_cash local asset in
      let r = remote_cash remote asset in
      let delta = or_zero l ⊖ or_zero r in
      if or_zero l =? or_zero r
      then none
      else if delta =? nought
      then none
      else some (record { asset = asset; local_available = l; remote_available = r; delta = delta })

  unfoldable pub diff_balances : LocalSnapshot D → ExchangeSnapshot D → BalanceDiff D
  diff_balances local remote = record {
    discrepancies = each_key (balance_discrepancy local remote) (balance_assets local remote);
  }

  unfoldable pub diff : LocalSnapshot D → ExchangeSnapshot D → ReconciliationReport D
  diff local remote = record {
    local = local;
    remote = remote;
    order_diff = diff_orders local.open_orders remote.open_orders;
    position_diff = diff_positions local remote;
    balance_diff = diff_balances local remote;
  }
