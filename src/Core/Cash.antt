-- ===== src/Core/Cash.antt =====
-- tesser-core/src/lib.rs: `Cash` and `CashBook`.
use tesser.Prelude.{List, [], ◌∷◌, map}
use tesser.Prelude.HashMap.{HashMap, insert, entry_or, values}
use tesser.Decimal.{Decimal, nought, ◌⊕◌, ◌⊗◌}
use tesser.Core.Ids.{AssetId, asset_key}

pub record Cash (D : Type 0) : Type 0 where
  pub currency : AssetId
  pub quantity : D
  pub conversion_rate : D

abbrev pub CashBook : Type 0 → Type 0
CashBook D = HashMap AssetId (Cash D)

module _ {D : Type 0} ⦃d : Decimal D⦄ where
  -- `Cash::value`
  abbrev pub value : Cash D → D
  value c = c.quantity ⊗ c.conversion_rate

  abbrev pub upsert : Cash D → CashBook D → CashBook D
  upsert c b = insert c.currency c b

  abbrev pub empty_cash : AssetId → Cash D
  empty_cash a = record { currency = a; quantity = nought; conversion_rate = nought }

  -- The book after `adjust`; the result is the quantity of the entry.
  unfoldable pub adjust : AssetId → D → CashBook D → CashBook D
  adjust a delta = entry_or a (empty_cash a) (λ c. record c { quantity = c.quantity ⊕ delta })

  unfoldable pub update_conversion_rate : AssetId → D → CashBook D → CashBook D
  update_conversion_rate a rate =
      entry_or a (empty_cash a) (λ c. record c { conversion_rate = rate })

  -- `sum()` of an iterator
  abbrev pub sum_from : D → List D → D
  sum_from acc [] = acc
  sum_from acc (x ∷ xs) = sum_from (acc ⊕ x) xs

  abbrev pub sum : List D → D
  sum xs = sum_from nought xs

  abbrev pub total_value : CashBook D → D
  total_value b = sum (map value (values b))
