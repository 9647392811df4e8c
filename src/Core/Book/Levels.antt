-- ===== src/Core/Book/Levels.antt =====
-- tesser-core/src/lib.rs: one side of `LocalOrderBook`, a `BTreeMap` from prices to quantities, as the list of its entries in
-- key order. `rank` orders the keys: the price for asks, and `Reverse` of it for bids.
pub mod Order
pub mod Lookup
pub mod Depth
use tesser.Prelude.{Bool, Option, none, some, List, [], ◌∷◌, if◌then◌else◌}
use tesser.Prelude.Int.{ℤ, ltb_ℤ}

abbrev pub PriceLevels : Type 0 → Type 0
PriceLevels D = List (D × D)

module _ {D : Type 0} (rank : D → ℤ) where
  abbrev pub before : D → D → Bool
  before a b = ltb_ℤ (rank a) (rank b)

  -- `get`
  unfoldable pub get : D → PriceLevels D → Option D
  get k [] = none
  get k ((j, w) ∷ m) = if before k j then none else if before j k then get k m else some w

  -- `insert`, which keeps the key that is there
  unfoldable pub insert : D → D → PriceLevels D → PriceLevels D
  insert k v [] = (k, v) ∷ []
  insert k v ((j, w) ∷ m) =
      if before k j
      then (k, v) ∷ (j, w) ∷ m
      else if before j k
      then (j, w) ∷ insert k v m
      else (j, v) ∷ m

  -- `remove`
  unfoldable pub remove : D → PriceLevels D → PriceLevels D
  remove k [] = []
  remove k ((j, w) ∷ m) =
      if before k j then (j, w) ∷ m else if before j k then (j, w) ∷ remove k m else m
