-- ===== src/Core/Book/Volume.antt =====
-- What `volume_at_level` reads after each operation of `LocalOrderBook`, and the best levels.
use tesser.Prelude.{◌≡◌, some, [], ◌∷◌, inl, inr, Option-cases, arith, unwrap_or, if◌then◌else◌}
use tesser.Prelude.Int.{ℤ, ◌==ℤ◌, ◌≤ℤ◌, neg_ℤ_parts}
use tesser.Decimal.{Decimal, units, nought, ◌⊕◌, ◌⊖◌, ◌≤?◌, ◌=?◌}
use tesser.Decimal.Laws.{IsExact}
use tesser.Decimal.Parts.{IsPos, ◌≼◌, ◌≺◌, nought_parts, sub_parts}
use tesser.Core.Types.{Side, buy, sell, inverse}
use tesser.Core.Book.{
  LocalOrderBook, ask_rank, bid_rank, accumulate, reduce, add_order, apply_delta, remove_order,
  clear_level, volume_at_level, best_bid, best_ask, best_contra, first,
}
use tesser.Core.Book.Levels.{PriceLevels, get}
use tesser.Core.Book.Levels.Order.{IsSorted}
use tesser.Core.Book.Levels.Lookup.{get-insert, get-remove, get_same}
use tesser.Core.Book.Valid.{IsValid}

module _ {D : Type 0} ⦃d : Decimal D⦄ where
  -- On a valid book, a delta for a price sets the quantity that is read at that price on its side, to
  -- zero if it is not positive, and changes no other price and not the other side.
  pub volume-apply_delta :
      (side : Side) (p q p' : D) (b : LocalOrderBook D)
      → IsValid b
      → (volume_at_level side p' (apply_delta side p q b)
          ≡ (if p' =? p then (if q ≤? nought then nought else q) else volume_at_level side p' b))
        × (volume_at_level (inverse side) p' (apply_delta side p q b)
            ≡ volume_at_level (inverse side) p' b)
  unfolding volume_at_level apply_delta clear_level bid_rank ask_rank
  volume-apply_delta buy p q p' b v = ground (
    arith,
    get-insert bid_rank p p' q b.bids,
    get-remove bid_rank p p' b.bids v.bids_good.sorted,
    neg_ℤ_parts (units p),
    neg_ℤ_parts (units p'),
  )
  volume-apply_delta sell p q p' b v =
      ground (
        arith,
        get-insert ask_rank p p' q b.asks,
        get-remove ask_rank p p' b.asks v.asks_good.sorted,
      )

  -- An added order raises the quantity that is read at its price by its own, if that is positive; all
  -- else stays.
  pub volume-add_order :
      (side : Side) (p q p' : D) (b : LocalOrderBook D)
      → (volume_at_level side p' (add_order side p q b) ≡ (
          if q ≤? nought
          then volume_at_level side p' b
          else if p' =? p
          then volume_at_level side p b ⊕ q
          else volume_at_level side p' b))
        × (volume_at_level (inverse side) p' (add_order side p q b)
            ≡ volume_at_level (inverse side) p' b)
  unfolding volume_at_level add_order accumulate bid_rank ask_rank
  volume-add_order buy p q p' b = ground (
    arith,
    get-insert bid_rank p p' (unwrap_or (get bid_rank p b.bids) nought ⊕ q) b.bids,
    neg_ℤ_parts (units p),
    neg_ℤ_parts (units p'),
  )
  volume-add_order sell p q p' b =
      ground (arith, get-insert ask_rank p p' (unwrap_or (get ask_rank p b.asks) nought ⊕ q) b.asks)

  module _ (laws : IsExact D) where
    reduce_lem :
        (rank : D → ℤ) (p q p' : D) (m : PriceLevels D)
        → IsSorted rank m
        → IsPos q
        → unwrap_or (get rank p' (reduce rank p q m)) nought ≡ (
            if rank p' ==ℤ rank p
            then (let rest = unwrap_or (get rank p m) nought ⊖ q in
                if rest ≤? nought then nought else rest)
            else unwrap_or (get rank p' m) nought)
    unfolding reduce
    reduce_lem rank p q p' m s h = ground (
      arith,
      get-insert rank p p' (unwrap_or (get rank p m) nought ⊖ q) m,
      get-remove rank p p' m s,
      get_same rank p' p m,
      sub_parts laws nought q,
      nought_parts laws,
    )

    -- A removed order of a positive quantity lowers what is read at its price by that, down to zero
    -- at least; all else stays, and an order that is not positive changes nothing.
    pub volume-remove_order :
        (side : Side) (p q p' : D) (b : LocalOrderBook D)
        → IsValid b
        → (volume_at_level side p' (remove_order side p q b) ≡ (
            if q ≤? nought
            then volume_at_level side p' b
            else if p' =? p
            then (let rest = volume_at_level side p b ⊖ q in
                if rest ≤? nought then nought else rest)
            else volume_at_level side p' b))
          × (volume_at_level (inverse side) p' (remove_order side p q b)
              ≡ volume_at_level (inverse side) p' b)
    unfolding volume_at_level remove_order bid_rank ask_rank
    volume-remove_order buy p q p' b v = ground (
      arith,
      reduce_lem bid_rank p q p' b.bids v.bids_good.sorted,
      nought_parts laws,
      neg_ℤ_parts (units p),
      neg_ℤ_parts (units p'),
    )
    volume-remove_order sell p q p' b v =
        ground (arith, reduce_lem ask_rank p q p' b.asks v.asks_good.sorted, nought_parts laws)

  first_lem :
      (rank : D → ℤ) (p q p' : D) {v : D} (m : PriceLevels D)
      → IsSorted rank m
      → first m ≡ some (p, q)
      → get rank p' m ≡ some v
      → rank p ≤ℤ rank p'
  unfolding get
  first_lem rank p q p' [] s e f = cc
  first_lem rank p q p' ((j, w) ∷ m) s e f = ground arith

  first-get :
      (rank : D → ℤ) (p q : D) (m : PriceLevels D) → first m ≡ some (p, q) → get rank p m ≡ some q
  unfolding get
  first-get rank p q [] e = cc
  first-get rank p q ((j, w) ∷ m) e = ground arith

  best_bid_highest :
      (b : LocalOrderBook D) (p q p' : D)
      → IsValid b
      → best_bid b ≡ some (p, q)
      → nought ≺ volume_at_level buy p' b
      → (volume_at_level buy p b ≡ q) × (p' ≼ p)
  unfolding best_bid volume_at_level bid_rank
  best_bid_highest b p q p' v e f = elim (Option-cases (get bid_rank p' b.bids)) [
    | inl n ↦ absurd (ground (arith, n))
    | inr (w, s) ↦ (
      rw (first-get bid_rank p q b.bids e, unwrap_or),
      omega (
        arith,
        first_lem bid_rank p q p' {v = w} b.bids v.bids_good.sorted e s,
        neg_ℤ_parts (units p),
        neg_ℤ_parts (units p'),
      ),
    )
  ]

  best_ask_lowest :
      (b : LocalOrderBook D) (p q p' : D)
      → IsValid b
      → best_ask b ≡ some (p, q)
      → nought ≺ volume_at_level sell p' b
      → (volume_at_level sell p b ≡ q) × (p ≼ p')
  unfolding best_ask volume_at_level ask_rank
  best_ask_lowest b p q p' v e f = elim (Option-cases (get ask_rank p' b.asks)) [
    | inl n ↦ absurd (ground (arith, n))
    | inr (w, s) ↦ (
      rw (first-get ask_rank p q b.asks e, unwrap_or),
      first_lem ask_rank p q p' {v = w} b.asks v.asks_good.sorted e s,
    )
  ]

  -- The first price is at least as good for the side as the second.
  abbrev pub Leads : Side → D → D → Type 0
  Leads buy p p' = p' ≼ p
  Leads sell p p' = p ≼ p'

  -- In a valid book the best level of a side holds what is read at its price, and no price at which
  -- something is read is better: no bid is higher than the best bid, no ask lower than the best ask.
  pub best_contra-Leads :
      (side : Side) (b : LocalOrderBook D) (p q p' : D)
      → IsValid b
      → best_contra (inverse side) b ≡ some (p, q)
      → nought ≺ volume_at_level side p' b
      → (volume_at_level side p b ≡ q) × Leads side p p'
  unfolding best_bid best_ask best_contra
  best_contra-Leads buy b p q p' v e f = best_bid_highest b p q p' v e f
  best_contra-Leads sell b p q p' v e f = best_ask_lowest b p q p' v e f
