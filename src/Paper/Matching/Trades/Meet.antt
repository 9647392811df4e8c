-- ===== src/Paper/Matching/Trades/Meet.antt =====
-- What a trade of the market does with one resting order.
use tesser.Prelude.{
  ◌≡◌, refl, ◌∙◌, ap, inl, inr, true, false, not, ◌&&◌, ◌||◌, List, [], ◌∷◌, arith, if◌then◌else◌,
  All, Bool-cases,
}
use tesser.Prelude.Int.{ℤ, pos, ◌+ℤ◌, +ℤ_parts, eq_of_parts}
use tesser.Decimal.{Decimal, units, nought, ◌⊕◌, ◌⊖◌, ◌<?◌, ◌≤?◌, ◌=?◌, min, max}
use tesser.Decimal.Laws.{IsExact}
use tesser.Decimal.Parts.{IsPos, IsNonneg, ◌≼◌, add_parts, sub_parts}
use tesser.Core.Ids.{Symbol}
use tesser.Core.Types.{Text, Time, Side, buy, sell, inverse, same_side, Fill}
use tesser.Paper.Matching.{MatchingEngine, RestingOrder}
use tesser.Paper.Matching.Booking.{build_fill}
use tesser.Paper.Matching.Trades.{
  Met, passive_fillable_volume, filled_at, trade_crosses_order, apply_resting_fill, untouched,
  fill_by, meet,
}

module _ {D : Type 0} ⦃d : Decimal D⦄ where
  -- What is filled and what remains of an order make up its quantity, and neither is below zero.
  pub record IsSettled (r : RestingOrder D) : Type 0 where
    pub whole : units r.order.filled_quantity +ℤ units r.remaining ≡ units r.order.request.quantity
    pub filled_nonneg : IsNonneg r.order.filled_quantity
    pub remaining_nonneg : IsNonneg r.remaining

  -- a price at which an order of the side gets at least what its own price asks for
  abbrev pub NoWorse : Side → D → D → Type 0
  NoWorse buy price limit = price ≼ limit
  NoWorse sell price limit = limit ≼ price

  -- A fill that a trade at a price may give to a resting order: it is positive and within what remains,
  -- at the price of the trade, which is no worse than the order's, for an active order on the side that
  -- the trade takes from.
  pub record IsFillOf (aggressor : Side) (price : D) (id : Text) (r : RestingOrder D) (f : Fill D)
      : Type 0 where
    pub of_order : f.order_id ≡ id
    pub of_symbol : f.symbol ≡ r.order.request.symbol
    pub of_side : f.side ≡ r.order.request.side
    pub at_price : f.fill_price ≡ price
    pub positive : IsPos f.fill_quantity
    pub within : f.fill_quantity ≼ r.remaining
    pub was_active : r.active ≡ true
    pub on_side : r.order.request.side ≡ inverse aggressor
    pub no_worse : NoWorse r.order.request.side price r.price

  abbrev pub traded : List (Fill D) → ℤ
  traded [] = pos 0
  traded (f ∷ fills) = units f.fill_quantity +ℤ traded fills

  -- What a trade leaves after an order: what it gave to it and what is left make up what there was, the
  -- fills are such as it may give, and the order stays settled.
  pub record IsFair (aggressor : Side) (price quantity : D) (id : Text) (r : RestingOrder D)
      (m : Met D) : Type 0 where
    pub fair_fills : All (IsFillOf aggressor price id r) m.generated
    pub all_used : traded m.generated +ℤ units m.left ≡ units quantity
    pub left_nonneg : IsNonneg m.left
    pub settled : IsSettled m.order

module _ {D : Type 0} ⦃d : Decimal D⦄ (laws : IsExact D) where
  seen-IsSettled :
      (vol : D) (r : RestingOrder D) → IsSettled r → IsSettled (record r { processed_volume = vol })
  seen-IsSettled vol r s = record {
    whole = s.whole;
    filled_nonneg = s.filled_nonneg;
    remaining_nonneg = s.remaining_nonneg;
  }

  crosses_lem :
      (aggressor : Side) (price : D) (r : RestingOrder D)
      → trade_crosses_order aggressor price r ≡ true
      → (r.order.request.side ≡ inverse aggressor)
        × NoWorse r.order.request.side price r.price
        × ((r.price =? price) ≡ false)
  unfolding trade_crosses_order
  crosses_lem buy price r h = ground (arith, h)
  crosses_lem sell price r h = ground (arith, h)

  level_lem :
      (aggressor : Side) (price : D) (r : RestingOrder D)
      → ((r.price =? price) && not (same_side r.order.request.side aggressor)) ≡ true
      → (r.order.request.side ≡ inverse aggressor) × NoWorse r.order.request.side price r.price
  level_lem buy price r h = ground (arith, h)
  level_lem sell price r h = ground (arith, h)

  min_lem : (a b : D) → IsPos a → IsPos b → IsPos (min a b) × (min a b ≼ a) × (min a b ≼ b)
  min_lem a b p q = ground arith

  not_zero : (q : D) → IsPos q → (q ≤? nought) ≡ false
  not_zero q p = ground (arith, laws.units-nought)

  pub max_of : (a : D) → IsNonneg a → units (max a nought) ≡ units a
  max_of a n = eq_of_parts _ _ (ground (arith, laws.units-nought))

  rest-IsNonneg : (a q : D) → q ≼ a → IsNonneg (a ⊖ q)
  rest-IsNonneg a q w = omega (arith, sub_parts laws a q)

  filled_at-IsSettled :
      (price q : D) (timestamp : Time) (r : RestingOrder D)
      → IsSettled r
      → IsPos q
      → q ≼ r.remaining
      → IsSettled (filled_at price q timestamp r)
  filled_at-IsSettled price q timestamp r s p w = record {
    whole =
        ap (λ x. units (r.order.filled_quantity ⊕ q) +ℤ x)
          (max_of (r.remaining ⊖ q) (rest-IsNonneg r.remaining q w))
        ∙ moved
        ∙ s.whole;
    filled_nonneg = ground (arith, add_parts laws r.order.filled_quantity q, s.filled_nonneg);
    remaining_nonneg = ground (arith, laws.units-nought);
  }
    where
      moved :
          units (r.order.filled_quantity ⊕ q) +ℤ units (r.remaining ⊖ q)
          ≡ units r.order.filled_quantity +ℤ units r.remaining
      moved = eq_of_parts _ _ (
          omega (
            arith,
            add_parts laws r.order.filled_quantity q,
            sub_parts laws r.remaining q,
            +ℤ_parts (units (r.order.filled_quantity ⊕ q)) (units (r.remaining ⊖ q)),
            +ℤ_parts (units r.order.filled_quantity) (units r.remaining),
          ))

module _ {D : Type 0} ⦃d : Decimal D⦄ (laws : IsExact D) (code : Symbol → Text) where
  untouched-IsFair :
      (aggressor : Side) (price quantity vol : D) (id : Text) (r : RestingOrder D)
      (e : MatchingEngine D)
      → IsNonneg quantity
      → IsSettled r
      → IsFair aggressor price quantity id r
          (untouched code quantity (record r { processed_volume = vol }) e)
  untouched-IsFair aggressor price quantity vol id r e n s = record {
    fair_fills = tt;
    all_used = eq_of_parts _ _ (omega (arith, +ℤ_parts (pos 0) (units quantity)));
    left_nonneg = n;
    settled = seen-IsSettled laws vol r s;
  }

  fill_by-IsFair :
      (aggressor : Side) (price q quantity vol : D) (timestamp : Time) (id : Text)
      (r : RestingOrder D) (e : MatchingEngine D)
      → IsPos q
      → q ≼ r.remaining
      → q ≼ quantity
      → r.active ≡ true
      → r.order.request.side ≡ inverse aggressor
      → NoWorse r.order.request.side price r.price
      → IsSettled r
      → IsFair aggressor price quantity id r
          (fill_by code id price q quantity timestamp (record r { processed_volume = vol }) e)
  unfolding apply_resting_fill build_fill
  fill_by-IsFair aggressor price q quantity vol timestamp id r e p w v a side n s =
      rw (not_zero laws q p, apply_resting_fill)
        (record {
          fair_fills = (
            record {
              of_order = refl;
              of_symbol = refl;
              of_side = refl;
              at_price = refl;
              positive = p;
              within = w;
              was_active = a;
              on_side = side;
              no_worse = n;
            },
            tt,
          );
          all_used = eq_of_parts _ _ (
              omega (
                arith,
                sub_parts laws quantity q,
                +ℤ_parts (units q +ℤ pos 0) (units (quantity ⊖ q)),
                +ℤ_parts (units q) (pos 0),
              ));
          left_nonneg = rest-IsNonneg laws quantity q v;
          settled =
              filled_at-IsSettled laws price q timestamp (record r { processed_volume = vol })
                (seen-IsSettled laws vol r s) p w;
        })

  passive_lem :
      (size : D) (r : RestingOrder D)
      → (vol : D) × ((passive_fillable_volume size r).1 ≡ record r { processed_volume = vol })
  unfolding passive_fillable_volume
  passive_lem size r = elim (Bool-cases (r.remaining ≤? nought)) [
    | inl b ↦ (r.processed_volume, rw (b, passive_fillable_volume) refl)
    | inr b ↦ (
      min (r.processed_volume ⊕ size) (r.initial_queue_position ⊕ r.original_quantity),
      rw (b, passive_fillable_volume) refl,
    )
  ]

  -- the last branch of `meet`
  passive-IsFair :
      (aggressor : Side) (price size : D) (timestamp : Time) (id : Text) (r : RestingOrder D)
      (quantity : D) (e : MatchingEngine D)
      → IsSettled r
      → IsNonneg quantity
      → IsPos r.remaining × (r.active ≡ true)
      → IsFair aggressor price quantity id r (
          if (r.price =? price) && not (same_side r.order.request.side aggressor)
          then (let (incremental, seen) = passive_fillable_volume size r in
              if (nought <? incremental) && (nought <? quantity)
              then fill_by code id price
                  (min (min incremental r.remaining) quantity)
                  quantity
                  timestamp
                  seen
                  e
              else untouched code quantity seen e)
          else untouched code quantity r e)
  passive-IsFair aggressor price size timestamp id r quantity e s n (rest, active) =
      elim (Bool-cases ((r.price =? price) && not (same_side r.order.request.side aggressor))) [
        | inr y ↦ rw y (untouched-IsFair aggressor price quantity r.processed_volume id r e n s)
        | inl y ↦
            let (side, no_worse) = level_lem laws aggressor price r y in
            let (vol, seen) = passive_lem size r in
            let inc = (passive_fillable_volume size r).0 in
            elim (Bool-cases ((nought <? inc) && (nought <? quantity))) [
              | inr t ↦ rw (y, t, seen) (untouched-IsFair aggressor price quantity vol id r e n s)
              | inl t ↦
                  let two : IsPos inc × IsPos quantity = ground (arith, t, laws.units-nought) in
                  let (p, _, v) = min_lem laws inc r.remaining two.0 rest in
                  let (p', w', v') = min_lem laws (min inc r.remaining) quantity p two.1 in
                  rw (y, t, seen)
                    (fill_by-IsFair aggressor price (min (min inc r.remaining) quantity) quantity
                      vol timestamp id r e p' (omega (arith, w', v)) v' active side no_worse s)
            ]
      ]

  -- Whatever a trade does with a settled order is fair.
  pub meet-IsFair :
      (aggressor : Side) (price size : D) (timestamp : Time) (id : Text) (r : RestingOrder D)
      (quantity : D) (e : MatchingEngine D)
      → IsSettled r
      → IsNonneg quantity
      → IsFair aggressor price quantity id r
          (meet code aggressor price size timestamp id r quantity e)
  unfolding meet
  meet-IsFair aggressor price size timestamp id r quantity e s n =
      elim (Bool-cases ((r.remaining ≤? nought) || not r.active)) [
        | inl b ↦
            rw (b, meet) (untouched-IsFair aggressor price quantity r.processed_volume id r e n s)
        | inr b ↦ elim (Bool-cases ((quantity ≤? nought) && not (r.price =? price))) [
          | inl c ↦
              rw (b, c, meet)
                (untouched-IsFair aggressor price quantity r.processed_volume id r e n s)
          | inr c ↦ elim (Bool-cases (trade_crosses_order aggressor price r)) [
            | inl x ↦
                let (side, no_worse, apart) = crosses_lem laws aggressor price r x in
                let rest : IsPos r.remaining × (r.active ≡ true) =
                  ground (arith, b, laws.units-nought) in
                let some_left : IsPos quantity = ground (arith, c, apart, laws.units-nought) in
                let (p, v, w) = min_lem laws quantity r.remaining some_left rest.0 in
                rw (b, c, x, meet)
                  (fill_by-IsFair aggressor price (min quantity r.remaining) quantity
                    r.processed_volume timestamp id r e p w v rest.1 side no_worse s)
            | inr x ↦
                rw (b, c, x, meet)
                  (passive-IsFair aggressor price size timestamp id r quantity e s n
                    (ground (arith, b, laws.units-nought)))
          ]
        ]
      ]
