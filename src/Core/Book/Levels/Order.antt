-- ===== src/Core/Book/Levels/Order.antt =====
-- Every operation on a side of the book keeps its keys in order and distinct.
use tesser.Prelude.{[], ◌∷◌, arith, All}
use tesser.Prelude.Int.{ℤ, ◌<ℤ◌, ◌≤ℤ◌}
use tesser.Core.Book.Levels.{PriceLevels, insert, remove}

module _ {D : Type 0} (rank : D → ℤ) where
  abbrev pub After : D → D × D → Type 0
  After k e = rank k <ℤ rank e.0

  abbrev pub IsSorted : PriceLevels D → Type 0
  IsSorted [] = Unit
  IsSorted (e ∷ m) = All (After e.0) m × IsSorted m

  pub After-trans :
      (k j : D) (m : PriceLevels D) → rank k ≤ℤ rank j → All (After j) m → All (After k) m
  After-trans k j [] h a = tt
  After-trans k j (e ∷ m) h (q, a) = (omega arith, After-trans k j m h a)

  pub All-insert {κ} :
      (P : D × D → Type κ) (k v : D) (m : PriceLevels D)
      → P (k, v)
      → ((j w : D) → P (j, w) → P (j, v))
      → All P m
      → All P (insert rank k v m)
  unfolding insert
  All-insert P k v [] p f a = (p, tt)
  All-insert P k v ((j, w) ∷ m) p f (q, a) = ground (arith, f j w q, All-insert P k v m p f a)

  pub All-remove {κ} :
      (P : D × D → Type κ) (k : D) (m : PriceLevels D) → All P m → All P (remove rank k m)
  unfolding remove
  All-remove P k [] a = tt
  All-remove P k ((j, w) ∷ m) (q, a) = ground (arith, All-remove P k m a)

  pub insert-IsSorted : (k v : D) (m : PriceLevels D) → IsSorted m → IsSorted (insert rank k v m)
  unfolding insert
  insert-IsSorted k v [] s = (tt, tt)
  insert-IsSorted k v ((j, w) ∷ m) (a, s) =
      ground (arith, After-trans k j m, All-insert (After j) k v m, insert-IsSorted k v m s)

  pub remove-IsSorted : (k : D) (m : PriceLevels D) → IsSorted m → IsSorted (remove rank k m)
  unfolding remove
  remove-IsSorted k [] s = tt
  remove-IsSorted k ((j, w) ∷ m) (a, s) =
      ground (arith, All-remove (After j) k m a, remove-IsSorted k m s)
