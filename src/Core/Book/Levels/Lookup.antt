-- ===== src/Core/Book/Levels/Lookup.antt =====
-- What a side of the book holds at each price after an insertion or a removal.
use tesser.Prelude.{◌≡◌, refl, true, none, some, [], ◌∷◌, arith, All, if◌then◌else◌}
use tesser.Prelude.Int.{ℤ, ◌==ℤ◌}
use tesser.Core.Book.Levels.{PriceLevels, get, insert, remove}
use tesser.Core.Book.Levels.Order.{After, IsSorted, After-trans}

module _ {D : Type 0} (rank : D → ℤ) where
  pub get-insert :
      (k j v : D) (m : PriceLevels D)
      → get rank j (insert rank k v m) ≡ (if rank j ==ℤ rank k then some v else get rank j m)
  unfolding get insert
  get-insert k j v [] = ground arith
  get-insert k j v ((i, w) ∷ m) = ground (arith, get-insert k j v m)

  -- In a sorted side no key beyond the first entries is found before them.
  pub get-After : (k : D) (m : PriceLevels D) → All (After rank k) m → get rank k m ≡ none
  unfolding get
  get-After k [] a = refl
  get-After k ((j, w) ∷ m) (q, a) = ground arith

  pub get_same :
      (j k : D) (m : PriceLevels D) → (rank j ==ℤ rank k) ≡ true → get rank j m ≡ get rank k m
  unfolding get
  get_same j k [] h = refl
  get_same j k ((i, w) ∷ m) h = ground (arith, get_same j k m h)

  pub get-remove :
      (k j : D) (m : PriceLevels D)
      → IsSorted rank m
      → get rank j (remove rank k m) ≡ (if rank j ==ℤ rank k then none else get rank j m)
  unfolding get remove
  get-remove k j [] s = ground arith
  get-remove k j ((i, w) ∷ m) (a, s) =
      ground (arith, get-remove k j m s, get-After j m, After-trans rank j i m)
