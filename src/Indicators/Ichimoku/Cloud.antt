-- ===== src/Indicators/Ichimoku/Cloud.antt =====
-- The cloud is that of the midpoints of the last candles.
use Prim.Derive.{subst}
use mathlib.Core.List.{append-nil, append_assoc}
use tesser.Prelude.{
  ℕ, ◌≤◌, ◌<◌, ◌≡◌, refl, sym, ◌∙◌, ap, Bool, true, false, Option, none, some, List, [], ◌∷◌, ◌++◌,
  arith, if◌then◌else◌, inl, inr, Bool-cases, ltb, map, length, length-append, length-map, map-snoc,
  ◌==◌,
}
use tesser.Prelude.Result.{ok, err, ok_if}
use tesser.Decimal.{Decimal, of_ℕ, ◌⊕◌, ◌⊘◌}
use tesser.Core.Types.{Candle}
use tesser.Indicators.{fed, IndicatorError}
use tesser.Indicators.Window.{recent, recent_nil, push_queue, push_queue-recent, length-recent}
use tesser.Indicators.Ichimoku.{
  Ichimoku, IchimokuOutput, start, new, midpoint, pushed, output, next, ichimoku,
}

module _ {D : Type 0} ⦃d : Decimal D⦄ where
  abbrev pub highs : List (Candle D) → List D
  highs = map (λ (c : Candle D). c.high)

  abbrev pub lows : List (Candle D) → List D
  lows = map (λ (c : Candle D). c.low)

  -- the state whose windows hold the last candles
  abbrev pub cloud : ℕ → ℕ → ℕ → List (Candle D) → Ichimoku D
  cloud c b p seen = record {
    conversion_period = c;
    base_period = b;
    span_b_period = p;
    highs_conv = recent c (highs seen);
    lows_conv = recent c (lows seen);
    highs_base = recent b (highs seen);
    lows_base = recent b (lows seen);
    highs_span_b = recent p (highs seen);
    lows_span_b = recent p (lows seen);
  }

  pushed-cloud :
      (c b p : ℕ) (seen : List (Candle D)) (x : Candle D)
      → pushed x (cloud c b p seen) ≡ cloud c b p (seen ++ (x ∷ []))
  pushed-cloud c b p seen x = λ i. record {
    conversion_period = c;
    base_period = b;
    span_b_period = p;
    highs_conv = high c i;
    lows_conv = low c i;
    highs_base = high b i;
    lows_base = low b i;
    highs_span_b = high p i;
    lows_span_b = low p i;
  }
    where
      high :
          (n : ℕ)
          → push_queue n x.high (recent n (highs seen)) ≡ recent n (highs (seen ++ (x ∷ [])))
      high n = push_queue-recent n (highs seen) x.high ∙ ap (λ l. recent n l) (map-snoc _ seen x)

      low : (n : ℕ) → push_queue n x.low (recent n (lows seen)) ≡ recent n (lows (seen ++ (x ∷ [])))
      low n = push_queue-recent n (lows seen) x.low ∙ ap (λ l. recent n l) (map-snoc _ seen x)

  start-cloud : (c b p : ℕ) → start c b p ≡ cloud c b p []
  start-cloud c b p = λ i. record {
    conversion_period = c;
    base_period = b;
    span_b_period = p;
    highs_conv = recent_nil c i;
    lows_conv = recent_nil c i;
    highs_base = recent_nil b i;
    lows_base = recent_nil b i;
    highs_span_b = recent_nil p i;
    lows_span_b = recent_nil p i;
  }

  fed-cloud :
      (c b p : ℕ) (seen xs : List (Candle D))
      → fed ichimoku (cloud c b p seen) xs ≡ cloud c b p (seen ++ xs)
  unfolding next
  fed-cloud c b p seen [] = ap (λ l. cloud c b p l) (sym (append-nil seen))
  fed-cloud c b p seen (x ∷ xs) =
      ap (λ s. fed ichimoku s xs) (pushed-cloud c b p seen x)
      ∙ fed-cloud c b p (seen ++ (x ∷ [])) xs
      ∙ ap (λ l. cloud c b p l) (append_assoc seen (x ∷ []) xs)

  -- What the last candles come to: no value before there are as many as the third period; then the
  -- midpoints of the highest high and the lowest low of the last candles of each period.
  abbrev pub IsCloud : ℕ → ℕ → ℕ → List (Candle D) → Option (IchimokuOutput D) → Type 0
  IsCloud c b p seen none = length seen < p
  IsCloud c b p seen (some o) =
      (p ≤ length seen)
      × (midpoint (recent c (highs seen)) (recent c (lows seen)) ≡ some o.conversion_line)
      × (midpoint (recent b (highs seen)) (recent b (lows seen)) ≡ some o.base_line)
      × (midpoint (recent p (highs seen)) (recent p (lows seen)) ≡ some o.span_b)
      × (o.span_a ≡ (o.conversion_line ⊕ o.base_line) ⊘ of_ℕ 2)

  midpoint_of_some :
      (hs ls : List D) → 0 < length hs → 0 < length ls → (m : D) × (midpoint hs ls ≡ some m)
  unfolding midpoint
  midpoint_of_some [] ls p q = absurd (omega arith)
  midpoint_of_some (h ∷ hs) [] p q = absurd (omega arith)
  midpoint_of_some (h ∷ hs) (l ∷ ls) p q = (_, refl)

  -- a window of candles has a midpoint
  has_midpoint :
      (n : ℕ) (seen : List (Candle D))
      → 0 < n
      → 0 < length seen
      → (m : D) × (midpoint (recent n (highs seen)) (recent n (lows seen)) ≡ some m)
  has_midpoint n seen p q =
      midpoint_of_some (recent n (highs seen)) (recent n (lows seen))
        (ground
          (arith, p, q, length-recent n (highs seen), length-map (λ (c : Candle D). c.high) seen))
        (ground
          (arith, p, q, length-recent n (lows seen), length-map (λ (c : Candle D). c.low) seen))

  output-IsCloud :
      (c b p : ℕ) (seen : List (Candle D))
      → 0 < c
      → 0 < b
      → 0 < p
      → 0 < length seen
      → IsCloud c b p seen
          (if ltb (length (recent p (highs seen))) p then none else output (cloud c b p seen))
  output-IsCloud c b p seen k l m q =
      let much = length-recent p (highs seen) in
      let all = length-map (λ (c : Candle D). c.high) seen in
      let (_, conversion) = has_midpoint c seen k q in
      let (_, base) = has_midpoint b seen l q in
      let (_, span_b) = has_midpoint p seen m q in
      elim (Bool-cases (ltb (length (recent p (highs seen))) p)) [
        | inl s ↦ rw s (ground (arith, s, much, all))
        | inr s ↦
            rw (s, conversion, base, span_b, output)
              (ground (arith, s, much, all), conversion, base, span_b, refl)
      ]

  new-start :
      (c b p : ℕ) (s : Ichimoku D)
      → new c b p ≡ ok s
      → (0 < c) × (0 < b) × (0 < p) × (s ≡ start c b p)
  unfolding new
  new-start c b p s h =
      let (k, l, m, made) = built (c == 0) (b == 0) (p == 0) _ _ _ s h in
      (ground (arith, k), ground (arith, l), ground (arith, m), made)
    where
      built :
          (k l m : Bool) (x y z : IndicatorError D) (s : Ichimoku D)
          → (if k then err x else if l then err y else if m then err z else ok (start c b p)) ≡ ok s
          → (k ≡ false) × (l ≡ false) × (m ≡ false) × (s ≡ start c b p)
      built true l m x y z s h = absurd cc
      built false true m x y z s h = absurd cc
      built false false m x y z s h =
          let (off, whole) = ok_if m z (start c b p) s h in (refl, refl, off, whole)

  -- A cloud that `new` makes gives for a candle no value until it has read as many as its third period,
  -- this one included, and from then on always one: its lines are the midpoints of the highest high and
  -- the lowest low of the last candles of each period, and the first span the mean of the first two.
  pub next-IsCloud :
      (c b p : ℕ) (s : Ichimoku D)
      → new c b p ≡ ok s
      → (xs : List (Candle D)) (x : Candle D)
      → IsCloud c b p (xs ++ (x ∷ [])) (next x (fed ichimoku s xs)).0
  unfolding next
  next-IsCloud c b p s h xs x =
      let (k, l, m, made) = new-start c b p s h in
      let state = ap (λ z. fed ichimoku z xs) (made ∙ start-cloud c b p) ∙ fed-cloud c b p [] xs in
      subst (λ z. IsCloud c b p (xs ++ (x ∷ [])) (next x z).0) (sym state)
        (subst
          (λ z.
            IsCloud c b p (xs ++ (x ∷ []))
              (if ltb (length z.highs_span_b) z.span_b_period then none else output z))
          (sym (pushed-cloud c b p xs x))
          (output-IsCloud c b p (xs ++ (x ∷ [])) k l m (ground (arith, length-append xs (x ∷ [])))))
