-- ===== src/Core/Book/Valid.antt =====
-- Every operation of `LocalOrderBook` keeps both sides sorted, with positive quantities only.
use tesser.Prelude.{◌≡◌, some, [], ◌∷◌, inl, inr, arith, All, Option-cases, unwrap_or}
use tesser.Prelude.Int.{ℤ, pos, ◌<ℤ◌}
use tesser.Decimal.{Decimal, units, nought, ◌⊕◌, ◌⊖◌}
use tesser.Decimal.Parts.{nought_parts, add_parts}
use tesser.Decimal.Laws.{IsExact}
use tesser.Core.Types.{Side, buy, sell}
use tesser.Core.Book.{
  LocalOrderBook, ask_rank, bid_rank, empty_book, accumulate, reduce, add_order, apply_delta,
  apply_deltas, load_snapshot, remove_order, clear_level, each,
}
use tesser.Core.Book.Levels.{PriceLevels, get, insert, remove}
use tesser.Core.Book.Levels.Order.{
  IsSorted, insert-IsSorted, remove-IsSorted, All-insert, All-remove,
}
use tesser.Core.Book.Levels.Depth.{IsPositive}

module _ {D : Type 0} ⦃d : Decimal D⦄ where
  -- One side: keys in order and distinct, and a positive quantity at each.
  pub record IsGood (rank : D → ℤ) (m : PriceLevels D) : Type 0 where
    pub sorted : IsSorted rank m
    pub positive : All IsPositive m

  pub record IsValid (b : LocalOrderBook D) : Type 0 where
    pub bids_good : IsGood bid_rank b.bids
    pub asks_good : IsGood ask_rank b.asks

  pub get_pos :
      (rank : D → ℤ) (k : D) {v : D} (m : PriceLevels D)
      → All IsPositive m
      → get rank k m ≡ some v
      → pos 0 <ℤ units v
  unfolding get
  get_pos rank k [] a e = cc
  get_pos rank k {v = v} ((j, w) ∷ m) (p, a) e = ground (arith, get_pos rank k {v = v} m a)

  pub insert-IsGood :
      (rank : D → ℤ) (k v : D) (m : PriceLevels D)
      → IsGood rank m
      → pos 0 <ℤ units v
      → IsGood rank (insert rank k v m)
  insert-IsGood rank k v m g p = record {
    sorted = insert-IsSorted rank k v m g.sorted;
    positive = All-insert rank IsPositive k v m p (λ j w q. p) g.positive;
  }

  pub remove-IsGood :
      (rank : D → ℤ) (k : D) (m : PriceLevels D) → IsGood rank m → IsGood rank (remove rank k m)
  remove-IsGood rank k m g = record {
    sorted = remove-IsSorted rank k m g.sorted;
    positive = All-remove rank IsPositive k m g.positive;
  }

  module _ (laws : IsExact D) where
    pub accumulate-IsGood :
        (rank : D → ℤ) (k q : D) (m : PriceLevels D)
        → IsGood rank m
        → pos 0 <ℤ units q
        → IsGood rank (accumulate rank k q m)
    unfolding accumulate
    accumulate-IsGood rank k q m g p = elim (Option-cases (get rank k m)) [
      | inl e ↦
          rw (e, unwrap_or)
            (insert-IsGood rank k (nought ⊕ q) m g
              (omega (arith, add_parts laws nought q, nought_parts laws)))
      | inr (v, e) ↦
          rw (e, unwrap_or)
            (insert-IsGood rank k (v ⊕ q) m g
              (omega (arith, add_parts laws v q, get_pos rank k m g.positive e)))
    ]

    pub reduce-IsGood :
        (rank : D → ℤ) (k q : D) (m : PriceLevels D)
        → IsGood rank m
        → IsGood rank (reduce rank k q m)
    unfolding reduce
    reduce-IsGood rank k q m g = ground (
      arith,
      insert-IsGood rank k (unwrap_or (get rank k m) nought ⊖ q) m g,
      remove-IsGood rank k m g,
      nought_parts laws,
    )

    -- Adding quantity to a level keeps the book valid.
    pub add_order-IsValid :
        (side : Side) (p q : D) (b : LocalOrderBook D) → IsValid b → IsValid (add_order side p q b)
    unfolding add_order
    add_order-IsValid buy p q b v =
        ground (arith, nought_parts laws, accumulate-IsGood bid_rank p q b.bids v.bids_good)
    add_order-IsValid sell p q b v =
        ground (arith, nought_parts laws, accumulate-IsGood ask_rank p q b.asks v.asks_good)

    -- Removing quantity from a level, which deletes it when nothing is left, keeps the book valid.
    pub remove_order-IsValid :
        (side : Side) (p q : D) (b : LocalOrderBook D)
        → IsValid b
        → IsValid (remove_order side p q b)
    unfolding remove_order
    remove_order-IsValid buy p q b v = ground (arith, reduce-IsGood bid_rank p q b.bids v.bids_good)
    remove_order-IsValid sell p q b v =
        ground (arith, reduce-IsGood ask_rank p q b.asks v.asks_good)

    pub clear_level-IsValid :
        (side : Side) (p : D) (b : LocalOrderBook D) → IsValid b → IsValid (clear_level side p b)
    unfolding clear_level
    clear_level-IsValid buy p b v = ground (arith, remove-IsGood bid_rank p b.bids v.bids_good)
    clear_level-IsValid sell p b v = ground (arith, remove-IsGood ask_rank p b.asks v.asks_good)

    pub apply_delta-IsValid :
        (side : Side) (p q : D) (b : LocalOrderBook D)
        → IsValid b
        → IsValid (apply_delta side p q b)
    unfolding apply_delta
    apply_delta-IsValid buy p q b v = ground (
      arith,
      nought_parts laws,
      insert-IsGood bid_rank p q b.bids v.bids_good,
      remove-IsGood bid_rank p b.bids v.bids_good,
    )
    apply_delta-IsValid sell p q b v = ground (
      arith,
      nought_parts laws,
      insert-IsGood ask_rank p q b.asks v.asks_good,
      remove-IsGood ask_rank p b.asks v.asks_good,
    )

    each-IsValid :
        (f : D → D → LocalOrderBook D → LocalOrderBook D)
        → ((p q : D) (b : LocalOrderBook D) → IsValid b → IsValid (f p q b))
        → (m : PriceLevels D) (b : LocalOrderBook D) → IsValid b
        → IsValid (each f m b)
    each-IsValid f keep [] b v = v
    each-IsValid f keep ((p, q) ∷ m) b v = each-IsValid f keep m (f p q b) (keep p q b v)

    -- A batch of deltas, whatever prices and quantities it names, keeps the book valid.
    pub apply_deltas-IsValid :
        (bids asks : PriceLevels D) (b : LocalOrderBook D)
        → IsValid b
        → IsValid (apply_deltas bids asks b)
    unfolding apply_deltas
    apply_deltas-IsValid bids asks b v =
        each-IsValid (apply_delta sell) (apply_delta-IsValid sell) asks _
          (each-IsValid (apply_delta buy) (apply_delta-IsValid buy) bids b v)

    pub empty_book-IsValid : IsValid empty_book
    empty_book-IsValid = ground arith

    -- A book that is loaded from any two lists is valid, whatever it held before.
    pub load_snapshot-IsValid :
        (bids asks : PriceLevels D) (b : LocalOrderBook D) → IsValid (load_snapshot bids asks b)
    unfolding load_snapshot
    load_snapshot-IsValid bids asks b =
        each-IsValid (add_order sell) (add_order-IsValid sell) asks _
          (each-IsValid (add_order buy) (add_order-IsValid buy) bids _ empty_book-IsValid)
