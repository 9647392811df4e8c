-- ===== src/Paper/Matching/Limits.antt =====
-- connectors/tesser-paper/src/lib.rs: orders that the matching engine matches at once, and what of the
-- book they take.
use tesser.Prelude.{
  ℕ, suc, ◌≡◌, refl, sym, ◌∙◌, ap, ◌⊎◌, inl, inr, true, Option, none, some, List, [], ◌∷◌, ◌++◌,
  arith, All, map, unwrap_or, length, List-cases,
}
use tesser.Prelude.Int.{ℤ, pos, ◌+ℤ◌, min_ℤ, +ℤ_parts, eq_of_parts}
use tesser.Prelude.Result.{Result, ok, err}
use tesser.Decimal.{Decimal, units, nought, ◌⊕◌, ◌=?◌}
use tesser.Decimal.Laws.{IsExact}
use tesser.Decimal.Parts.{IsPos, IsNonneg}
use tesser.Core.Ids.{Symbol}
use tesser.Core.Types.{Text, Time, Side, buy, sell, inverse, market, limit, Order, OrderRequest}
use tesser.Core.Cash.{sum, sum_from}
use tesser.Core.Book.{LocalOrderBook, take_liquidity}
use tesser.Core.Book.Levels.Depth.{IsPositive, depth, depth_nonneg}
use tesser.Core.Book.Valid.{IsValid}
use tesser.Core.Book.Sweep.Liquidity.{side_of_book, Taken, take_liquidity-Taken}
use tesser.Broker.{BrokerError}
use tesser.Paper.Matching.{MatchingEngine, limit_crosses, take_all}
use tesser.Paper.Matching.Booking.{build_fill, apply_fill_accounting}
use tesser.Paper.Matching.Orders.{
  Draws, spawn_attached_orders, build_pending_order, match_market, book_slices, filled_by,
  handle_immediate_fills, take_now, place_order,
}
use tesser.Paper.Matching.Orders.Settled.{book_slices_keeps, spawned_if_keeps, immediate_open}
use tesser.Paper.Matching.Trades.Meet.{traded}
use tesser.Paper.Matching.Trades.Fair.{traded-append}

module _ {D : Type 0} ⦃d : Decimal D⦄ where
  -- the other side of the book of the market
  abbrev pub contra_depth : OrderRequest D → MatchingEngine D → ℤ
  contra_depth request e = depth (side_of_book (inverse request.side) e.market_depth)

  -- What an order that is matched at once leaves: an error only when the other side is empty; else it is
  -- filled as far as the whole depth of the other side allows, that much is gone from the book and
  -- reported in fills, and nothing of the order rests.
  abbrev pub IsSwept :
      OrderRequest D → MatchingEngine D → Result BrokerError (Order D) × MatchingEngine D → Type 0
  IsSwept request e (err x, e') =
      (contra_depth request e ≡ pos 0) × (e'.fills ≡ e.fills) × (e'.open_orders ≡ e.open_orders)
  IsSwept request e (ok o, e') =
      (units o.filled_quantity ≡ min_ℤ (units request.quantity) (contra_depth request e))
      × (contra_depth request e' +ℤ units o.filled_quantity ≡ contra_depth request e)
      × (traded e'.fills ≡ traded e.fills +ℤ units o.filled_quantity)
      × (e'.open_orders ≡ e.open_orders)

  -- an order that is matched at once: a market order, or a limit order that crosses
  abbrev pub IsTaker : OrderRequest D → MatchingEngine D → Type 0
  IsTaker request e =
      (request.order_type ≡ market)
      ⊎ ((request.order_type ≡ limit)
          × (price : D) × (request.price ≡ some price)
          × (limit_crosses request.side price e ≡ true))

module _ {D : Type 0} ⦃d : Decimal D⦄ (laws : IsExact D) (code : Symbol → Text) where
  side-positive :
      (side : Side) (b : LocalOrderBook D) → IsValid b → All IsPositive (side_of_book side b)
  side-positive buy b v = v.bids_good.positive
  side-positive sell b v = v.asks_good.positive

  sum_from-depth :
      (acc : D) (slices : List (D × D))
      → units (sum_from acc (map (λ p. p.1) slices)) ≡ units acc +ℤ depth slices
  sum_from-depth acc [] = eq_of_parts _ _ (omega (arith, +ℤ_parts (units acc) (pos 0)))
  sum_from-depth acc ((price, q) ∷ slices) =
      sum_from-depth (acc ⊕ q) slices
      ∙ ap (λ x. x +ℤ depth slices) (laws.units-add acc q)
      ∙ joined (units acc) (units q) (depth slices)
    where
      joined : (a b c : ℤ) → (a +ℤ b) +ℤ c ≡ a +ℤ (b +ℤ c)
      joined a b c =
          eq_of_parts _ _
            (omega (arith, +ℤ_parts a b, +ℤ_parts (a +ℤ b) c, +ℤ_parts b c, +ℤ_parts a (b +ℤ c)))

  sum-depth : (slices : List (D × D)) → units (sum (map (λ p. p.1) slices)) ≡ depth slices
  sum-depth slices =
      sum_from-depth nought slices
      ∙ eq_of_parts _ _
          (ground (arith, laws.units-nought, +ℤ_parts (units {D = D} nought) (depth slices)))

  -- the fuel of `take_all` is enough
  take_all-Taken :
      (side : Side) (q : D) (b : LocalOrderBook D)
      → IsValid b
      → IsNonneg q
      → Taken side q b (some (take_all side q b))
  unfolding take_all
  take_all-Taken side q b v n =
      unwrapped (take_liquidity (suc (length (side_of_book (inverse side) b))) side q b) (
        take_liquidity-Taken laws side (suc (length (side_of_book (inverse side) b))) q b v n
          (omega arith))
    where
      unwrapped :
          (r : Option (List (D × D) × LocalOrderBook D))
          → Taken side q b r
          → Taken side q b (some (unwrap_or r ([], b)))
      unwrapped none t = absurd t
      unwrapped (some r) t = t

  booked-traded :
      (times : ℕ → Time) (o : Order D) (slices : List (D × D)) (e : MatchingEngine D)
      → traded (book_slices code times o slices e).0 ≡ depth slices
  unfolding build_fill
  booked-traded times o [] e = refl
  booked-traded times o ((price, q) ∷ slices) e =
      ap (λ x. units q +ℤ x) (booked-traded (λ n. times (suc n)) o slices _)

  immediate-swept :
      (draws : Draws) (o : Order D) (slices : List (D × D)) (e : MatchingEngine D)
      → ((handle_immediate_fills code draws.fill_time draws.attached o slices e).1.market_depth
          ≡ e.market_depth)
        × (traded (handle_immediate_fills code draws.fill_time draws.attached o slices e).1.fills
            ≡ traded e.fills +ℤ depth slices)
  unfolding handle_immediate_fills apply_fill_accounting spawn_attached_orders
  immediate-swept draws o slices e =
      let done = filled_by code slices o in
      let booked = book_slices code draws.fill_time done slices e in
      let stored = record booked.1 { fills = booked.1.fills ++ booked.0 } in
      let all = o.request.quantity =? sum (map (λ p. p.1) slices) in
      (
        spawned_if_keeps laws code (λ e. e.market_depth) (λ n o e. ground arith) all draws.attached
              done stored
            ∙ book_slices_keeps laws code (λ e. e.market_depth) (λ f e. refl) draws.fill_time done
                slices e,
        ap (λ x. traded x)
              (spawned_if_keeps laws code (λ e. e.fills) (λ n o e. ground arith) all draws.attached
                done stored)
            ∙ traded-append booked.1.fills booked.0
            ∙ ap (λ x. traded x +ℤ traded booked.0)
                (book_slices_keeps laws code (λ e. e.fills) (λ f e. refl) draws.fill_time done
                  slices e)
            ∙ ap (λ x. traded e.fills +ℤ x) (booked-traded draws.fill_time done slices e),
      )

  module _ (draws : Draws) (o : Order D) (e : MatchingEngine D) (v : IsValid e.market_depth)
      (positive : IsPos o.request.quantity) where
    take_now-IsSwept : IsSwept o.request e (take_now code draws o e)
    unfolding match_market handle_immediate_fills
    take_now-IsSwept =
        let taken = take_all o.request.side o.request.quantity e.market_depth in
        let e' = record e { market_depth = taken.1 } in
        let contra = λ (b : LocalOrderBook D). depth (side_of_book (inverse o.request.side) b) in
        let (_, _, _, whole, much, _) =
          take_all-Taken o.request.side o.request.quantity e.market_depth v
            (omega (arith, positive)) in
        elim (List-cases taken.0) [
          | inl h ↦
              rw (h, match_market, take_now)
                (
                  ground (
                    arith,
                    sym (ap (λ x. depth x) h) ∙ much,
                    depth_nonneg (side_of_book (inverse o.request.side) e.market_depth)
                        (side-positive (inverse o.request.side) e.market_depth v),
                  ),
                  refl,
                  refl,
                )
          | inr (s, rest, h) ↦
              let filled = sum-depth (s ∷ rest) in
              let swept = immediate-swept draws o (s ∷ rest) e' in
              rw (h, match_market, take_now)
                (
                  filled ∙ sym (ap (λ x. depth x) h) ∙ much,
                  ap (λ b. contra b +ℤ units (sum (map (λ p. p.1) (s ∷ rest)))) swept.0
                      ∙ ap (λ x. contra taken.1 +ℤ x) (filled ∙ sym (ap (λ x. depth x) h))
                      ∙ whole,
                  swept.1 ∙ ap (λ x. traded e.fills +ℤ x) (sym filled),
                  immediate_open laws code draws.fill_time draws.attached o (s ∷ rest) e',
                )
        ]

  -- On a valid book of the market, a market order and a limit order that crosses, of a positive quantity,
  -- take the other side whatever the limit: `place_order` fails only when that side is empty; else the
  -- order is filled by the smaller of its quantity and the whole depth of that side, that much is gone from
  -- the book and reported in fills, and the rest of the order is dropped, since no order comes to rest.
  pub taker_sweeps :
      (draws : Draws) (request : OrderRequest D) (e : MatchingEngine D)
      → IsValid e.market_depth
      → IsPos request.quantity
      → IsTaker request e
      → IsSwept request e (place_order code draws request e)
  unfolding place_order build_pending_order
  taker_sweeps draws request e v positive t =
      let swept = take_now-IsSwept draws (build_pending_order draws.order request) e v positive in
      elim t [
        | inl m ↦ rw (m, place_order) swept
        | inr (l, price, h, b) ↦ rw (l, h, b, place_order) swept
      ]
