-- ===== src/Paper/Candles/Volume.antt =====
-- The shape of the candles of a builder, and the volume in them.
use Prim.Derive.{subst}
use tesser.Prelude.{
  ◌≡◌, refl, sym, ◌∙◌, ap, Option, none, some, List, [], ◌∷◌, arith, All, inl, inr, Bool-cases,
  Option-cases, unwrap_or,
}
use tesser.Prelude.Int.{ℤ, pos, ◌+ℤ◌, ◌-ℤ◌, leb_ℤ, +ℤ_parts, eq_of_parts, pos_part, neg_part}
use tesser.Decimal.{Decimal, units, ◌⊕◌, max, min}
use tesser.Decimal.Laws.{IsExact}
use tesser.Decimal.Parts.{◌≼◌}
use tesser.Core.Ids.{Symbol}
use tesser.Core.Types.{Time, Duration, Candle}
use tesser.Paper.Candles.{CandleBuilder, new, reset, update}

-- the price, the time and the quantity of a trade
abbrev pub Trade : Type 0 → Type 0
Trade D = D × Time × D

module _ {D : Type 0} ⦃d : Decimal D⦄ where
  -- the candles of a run of trades
  abbrev pub gather :
      Duration → List (Trade D) → CandleBuilder D → List (Candle D) × CandleBuilder D
  gather interval [] b = ([], b)
  gather interval ((price, timestamp, qty) ∷ trades) b =
      let (candle, b') = update price timestamp qty interval b in
      let (candles, b'') = gather interval trades b' in
      (elim candle [ none ↦ candles | some c ↦ c ∷ candles ], b'')

  abbrev pub traded : List (Trade D) → ℤ
  traded [] = pos 0
  traded ((_, _, qty) ∷ trades) = units qty +ℤ traded trades

  -- the quantity of the trades that end a candle
  abbrev pub closing : Duration → List (Trade D) → CandleBuilder D → ℤ
  closing interval [] b = pos 0
  closing interval ((price, timestamp, qty) ∷ trades) b =
      let (candle, b') = update price timestamp qty interval b in
      let rest = closing interval trades b' in
      elim candle [ none ↦ rest | some c ↦ units qty +ℤ rest ]

  abbrev pub volume_of : List (Candle D) → ℤ
  volume_of [] = pos 0
  volume_of (c ∷ candles) = units c.volume +ℤ volume_of candles

  abbrev pub IsCandle : Candle D → Type 0
  IsCandle c = (c.low ≼ c.«open») × (c.«open» ≼ c.high) × (c.low ≼ c.close) × (c.close ≼ c.high)

  abbrev Spans : Option D → CandleBuilder D → Type 0
  Spans none b = units b.volume ≡ pos 0
  Spans (some first) b = (b.low ≼ first) × (first ≼ b.high)

  -- what one trade does: to the candle, if it ends one, and to the volume
  abbrev Counted : D → CandleBuilder D → Option (Candle D) → CandleBuilder D → Type 0
  Counted qty b none b' = units b'.volume ≡ units b.volume +ℤ units qty
  Counted qty b (some c) b' =
      IsCandle c × (units c.volume ≡ units b.volume +ℤ units qty) × (units b'.volume ≡ units qty)

module _ {D : Type 0} ⦃d : Decimal D⦄ (laws : IsExact D) where
  update-Counted :
      (price : D) (timestamp : Time) (qty : D) (interval : Duration) (b : CandleBuilder D)
      → Spans b.«open» b
      → Spans
          (update price timestamp qty interval b).1.«open»
          (update price timestamp qty interval b).1
        × Counted qty b
            (update price timestamp qty interval b).0
            (update price timestamp qty interval b).1
  unfolding update reset
  update-Counted price timestamp qty interval b s = elim (Option-cases b.«open») [
    | inl e ↦
        let empty : units b.volume ≡ pos 0 = subst (λ o. Spans o b) e s in
        rw (e, update)
          (
            (omega arith, omega arith),
            eq_of_parts _ _ (ground (arith, empty, +ℤ_parts (units b.volume) (units qty))),
          )
    | inr (first, e) ↦
        let spans : (b.low ≼ first) × (first ≼ b.high) = subst (λ o. Spans o b) e s in
        let grown = record b {
          high = max b.high price;
          low = min b.low price;
          close = price;
          volume = b.volume ⊕ qty;
        } in
        elim (Bool-cases (leb_ℤ interval (timestamp -ℤ unwrap_or b.start timestamp))) [
          | inl c ↦
              rw (e, c, update)
                (
                  (omega arith, omega arith),
                  (
                    (ground (arith, spans.0), ground (arith, spans.1), ground arith, ground arith),
                    laws.units-add b.volume qty,
                    refl,
                  ),
                )
          | inr c ↦
              rw (e, c, update)
                (
                  subst (λ o. Spans o grown) {x = some first} (sym e)
                      (ground (arith, spans.0), ground (arith, spans.1)),
                  laws.units-add b.volume qty,
                )
        ]
  ]

  -- the sums of a run, from those of its first trade
  ends :
      (c v w q t k z : ℤ)
      → c ≡ z +ℤ q
      → v +ℤ w ≡ (q +ℤ t) +ℤ k
      → (c +ℤ v) +ℤ w ≡ (z +ℤ (q +ℤ t)) +ℤ (q +ℤ k)
  ends c v w q t k z h e = eq_of_parts _ _ (
      omega (
        arith,
        ap (λ x. pos_part x) h,
        ap (λ x. neg_part x) h,
        ap (λ x. pos_part x) e,
        ap (λ x. neg_part x) e,
        +ℤ_parts z q,
        +ℤ_parts v w,
        +ℤ_parts q t,
        +ℤ_parts (q +ℤ t) k,
        +ℤ_parts c v,
        +ℤ_parts (c +ℤ v) w,
        +ℤ_parts z (q +ℤ t),
        +ℤ_parts q k,
        +ℤ_parts (z +ℤ (q +ℤ t)) (q +ℤ k),
      ))

  goes_on :
      (v w q t k z y : ℤ) → y ≡ z +ℤ q → v +ℤ w ≡ (y +ℤ t) +ℤ k → v +ℤ w ≡ (z +ℤ (q +ℤ t)) +ℤ k
  goes_on v w q t k z y h e =
      e
      ∙ ap (λ x. (x +ℤ t) +ℤ k) h
      ∙ ap (λ x. x +ℤ k)
          (eq_of_parts _ _
            (omega (arith, +ℤ_parts z q, +ℤ_parts (z +ℤ q) t, +ℤ_parts q t, +ℤ_parts z (q +ℤ t))))

  gather-Counted :
      (interval : Duration) (trades : List (Trade D)) (b : CandleBuilder D)
      → Spans b.«open» b
      → (let r = gather interval trades b in
          All (λ c. IsCandle c) r.0
          × (volume_of r.0 +ℤ units r.1.volume
              ≡ (units b.volume +ℤ traded trades) +ℤ closing interval trades b))
  gather-Counted interval [] b s = (
    tt,
    eq_of_parts _ _ (
        omega (
          arith,
          +ℤ_parts (pos 0) (units b.volume),
          +ℤ_parts (units b.volume) (pos 0),
          +ℤ_parts (units b.volume +ℤ pos 0) (pos 0),
        )),
  )
  gather-Counted interval ((price, timestamp, qty) ∷ trades) b s =
      let b' = (update price timestamp qty interval b).1 in
      let (s', counted) = update-Counted price timestamp qty interval b s in
      let (shapes, sums) = gather-Counted interval trades b' s' in
      elim (Option-cases (update price timestamp qty interval b).0) [
        | inl e ↦
            let same = subst (λ o. Counted qty b o b') e counted in
            rw (e, gather, closing)
              (shapes, goes_on _ _ (units qty) (traded trades) _ (units b.volume) _ same sums)
        | inr (c, e) ↦
            let (shape, volume, fresh) = subst (λ o. Counted qty b o b') e counted in
            rw (e, gather, closing)
              (
                (shape, shapes),
                ends (units c.volume) _ _ (units qty) (traded trades) _ (units b.volume) volume
                    (sums ∙ ap (λ x. (x +ℤ traded trades) +ℤ closing interval trades b') fresh),
              )
      ]

  -- With exact decimals, each candle that a new builder makes of trades has its first and its last price
  -- between its low and its high, and the volume of the candles and of the one under way is that of the
  -- trades and, once more, that of those trades that ended a candle.
  pub candles_count_twice :
      (symbol : Symbol) (interval : Duration) (trades : List (Trade D))
      → (let r = gather interval trades (new symbol) in
          All (λ c. IsCandle c) r.0
          × (volume_of r.0 +ℤ units r.1.volume
              ≡ traded trades +ℤ closing interval trades (new symbol)))
  unfolding new
  candles_count_twice symbol interval trades =
      let (shapes, sums) = gather-Counted interval trades (new symbol) laws.units-nought in
      (
        shapes,
        sums
            ∙ ap (λ x. x +ℤ closing interval trades (new symbol))
                (ap (λ x. x +ℤ traded trades) laws.units-nought
                  ∙ eq_of_parts _ _ (omega (arith, +ℤ_parts (pos 0) (traded trades)))),
      )
