-- ===== src/Core/Book/Levels/Depth.antt =====
-- The resting quantity of a side of the book, in smallest steps of a decimal.
use tesser.Prelude.{◌≡◌, none, some, [], ◌∷◌, arith, All}
use tesser.Prelude.Int.{ℤ, pos, ◌+ℤ◌, ◌<ℤ◌, ◌≤ℤ◌, int_laws}
use tesser.Decimal.{Decimal, units}
use tesser.Core.Book.Levels.{PriceLevels, get, insert, remove}

module _ {D : Type 0} ⦃d : Decimal D⦄ where
  abbrev pub IsPositive : D × D → Type 0
  IsPositive e = pos 0 <ℤ units e.1

  abbrev pub depth : PriceLevels D → ℤ
  depth [] = pos 0
  depth ((_, v) ∷ m) = units v +ℤ depth m

  pub depth_nonneg : (m : PriceLevels D) → All IsPositive m → pos 0 ≤ℤ depth m
  depth_nonneg [] a = omega arith
  depth_nonneg (e ∷ m) (p, a) = omega (int_laws, depth_nonneg m a)

  module _ (rank : D → ℤ) where
    pub depth-insert_new :
        (k v : D) (m : PriceLevels D)
        → get rank k m ≡ none
        → depth (insert rank k v m) ≡ depth m +ℤ units v
    unfolding get insert
    depth-insert_new k v [] e = omega int_laws
    depth-insert_new k v ((j, w) ∷ m) e = grind (int_laws, depth-insert_new k v m)

    pub depth-insert :
        (k v old : D) (m : PriceLevels D)
        → get rank k m ≡ some old
        → depth (insert rank k v m) +ℤ units old ≡ depth m +ℤ units v
    unfolding get insert
    depth-insert k v old [] e = cc
    depth-insert k v old ((j, w) ∷ m) e = grind (int_laws, depth-insert k v old m)

    pub depth-remove :
        (k old : D) (m : PriceLevels D)
        → get rank k m ≡ some old
        → depth (remove rank k m) +ℤ units old ≡ depth m
    unfolding get remove
    depth-remove k old [] e = cc
    depth-remove k old ((j, w) ∷ m) e = grind (int_laws, depth-remove k old m)
