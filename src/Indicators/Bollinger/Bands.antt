-- ===== src/Indicators/Bollinger/Bands.antt =====
-- The bands lie around the mean of the last inputs.
use Prim.Derive.{subst}
use mathlib.Core.List.{append-nil, append_assoc}
use tesser.Prelude.{
  ℕ, ◌≤◌, ◌<◌, ◌≡◌, refl, sym, ◌∙◌, ap, Bool, true, false, Option, none, some, List, [], ◌∷◌, ◌++◌,
  arith, if◌then◌else◌, inl, inr, Bool-cases, Option-cases, List-cases, ◌==◌, ltb, map, length,
  unwrap_or,
}
use tesser.Prelude.Int.{◌+ℤ◌, +ℤ_parts, eq_of_parts}
use tesser.Prelude.Result.{ok, err, ok_if}
use tesser.Decimal.{Decimal, units, nought, of_ℕ, ◌⊕◌, ◌⊖◌, ◌⊗◌, ◌⊘◌, ◌<?◌}
use tesser.Decimal.Laws.{IsExact}
use tesser.Decimal.Parts.{IsNonneg, ◌≼◌, add_parts, sub_parts}
use tesser.Indicators.{Input, IndicatorError, fed, decimal_from_usize}
use tesser.Indicators.Window.{
  pop_front, push_queue, recent, recent_nil, push_queue-recent, length-recent, total, total-snoc,
}
use tesser.Indicators.Sma.Mean.{popped}
use tesser.Indicators.Bollinger.{
  BollingerBands, BollingerBandsOutput, new, evict, compute_bands, next, bollinger,
}

module _ {D : Type 0} ⦃d : Decimal D⦄ where
  -- a state that has read these values
  record HasRead (period : ℕ) (seen : List D) (s : BollingerBands D) : Type 0 where
    made_for : (s.period ≡ period) × (s.divisor ≡ of_ℕ period) × IsNonneg s.std_multiplier
    last : s.window ≡ recent period seen
    summed : units s.sum ≡ total s.window

  -- The bands of the last values: none until there are as many as the period; then the middle is their
  -- sum divided by the period, and the other two lie as far below and above it.
  abbrev pub AreBandsOf : ℕ → List D → Option (BollingerBandsOutput D) → Type 0
  AreBandsOf period seen none = length seen < period
  AreBandsOf period seen (some o) =
      (period ≤ length seen)
      × (o.lower ≼ o.middle)
      × (o.middle ≼ o.upper)
      × (units o.lower +ℤ units o.upper ≡ units o.middle +ℤ units o.middle)
      × (sum : D) × (units sum ≡ total (recent period seen))
      × (o.middle ≡ sum ⊘ of_ℕ period)

-- `sqrt` has no root below zero
module _ {D : Type 0} ⦃d : Decimal D⦄ (laws : IsExact D) (sqrt : D → Option D)
    (roots : (v r : D) → IsNonneg v → sqrt v ≡ some r → IsNonneg r) where
  evict-window :
      (s : BollingerBands D)
      → units s.sum ≡ total s.window
      → ((evict s).window
          ≡ (if ltb s.period (length s.window) then pop_front s.window else s.window))
        × (units (evict s).sum ≡ total (evict s).window)
        × ((evict s).period ≡ s.period)
        × ((evict s).divisor ≡ s.divisor)
        × ((evict s).std_multiplier ≡ s.std_multiplier)
  evict-window s h = elim (Bool-cases (ltb s.period (length s.window))) [
    | inr b ↦ rw (b, evict) (refl, h, refl, refl, refl)
    | inl b ↦ elim (List-cases s.window) [
      | inl e ↦ rw (b, e, evict) (e, h, refl, refl, refl)
      | inr (x, rest, e) ↦
          rw (b, e, evict)
            (refl, popped laws s.sum x (total rest) (h ∙ ap (λ w. total w) e), refl, refl, refl)
    ]
  ]

  root-IsNonneg : (v : D) → IsNonneg v → IsNonneg (unwrap_or (sqrt v) nought)
  root-IsNonneg v n = elim (Option-cases (sqrt v)) [
    | inl e ↦ rw e (ground (arith, laws.units-nought))
    | inr (r, e) ↦ rw e (roots v r n e)
  ]

  bands_around :
      (s : BollingerBands D)
      → IsNonneg s.std_multiplier
      → (let o = compute_bands sqrt s in
          (o.lower ≼ o.middle)
          × (o.middle ≼ o.upper)
          × (units o.lower +ℤ units o.upper ≡ units o.middle +ℤ units o.middle)
          × (o.middle ≡ s.sum ⊘ s.divisor))
  unfolding compute_bands
  bands_around s n =
      let mean = s.sum ⊘ s.divisor in
      let raw = (s.sum_of_squares ⊘ s.divisor) ⊖ (mean ⊗ mean) in
      let variance = if raw <? nought then nought else raw in
      let root = root-IsNonneg variance (ground (arith, laws.units-nought)) in
      let offset = s.std_multiplier ⊗ unwrap_or (sqrt variance) nought in
      let far = laws.mul_nonneg s.std_multiplier (unwrap_or (sqrt variance) nought) n root in
      let down = sub_parts laws mean offset in
      let up = add_parts laws mean offset in
      (
        omega (arith, far, down),
        omega (arith, far, up),
        eq_of_parts _ _ (
            omega (
              arith,
              down,
              up,
              +ℤ_parts (units (mean ⊖ offset)) (units (mean ⊕ offset)),
              +ℤ_parts (units mean) (units mean),
            )),
        refl,
      )

  module _ {V : Type 0} (i : Input V D) (period : ℕ) where
    next-HasRead :
        (seen : List D) (x : V) (s : BollingerBands D)
        → HasRead period seen s
        → HasRead period (seen ++ (i.value x ∷ [])) (next sqrt i x s).1
          × AreBandsOf period (seen ++ (i.value x ∷ [])) (next sqrt i x s).0
    unfolding next push_queue
    next-HasRead seen x s r =
        let v = i.value x in
        let t = record s {
          sum = s.sum ⊕ v;
          sum_of_squares = s.sum_of_squares ⊕ (v ⊗ v);
          window = s.window ++ (v ∷ []);
        } in
        let counted : units t.sum ≡ total t.window =
          laws.units-add s.sum v ∙ ap (λ n. n +ℤ units v) r.summed ∙ sym (total-snoc s.window v) in
        let (window, summed, same, divisor, multiplier) = evict-window t counted in
        let last : (evict t).window ≡ recent period (seen ++ (v ∷ [])) =
          window
          ∙ ap (λ p. push_queue p v s.window) r.made_for.0
          ∙ ap (λ w. push_queue period v w) r.last
          ∙ push_queue-recent period seen v in
        let read : HasRead period (seen ++ (v ∷ [])) (evict t) = record {
          made_for = (
            same ∙ r.made_for.0,
            divisor ∙ r.made_for.1,
            subst (λ m. IsNonneg m) (sym multiplier) r.made_for.2,
          );
          last = last;
          summed = summed;
        } in
        let much = ap (λ w. length w) last ∙ length-recent period (seen ++ (v ∷ [])) in
        let (low, high, even, mean) = bands_around (evict t) read.made_for.2 in
        (
          read,
          elim (Bool-cases (length (evict t).window == (evict t).period)) [
            | inl b ↦
                rw (b, next)
                  (
                    ground (arith, b, much, read.made_for.0),
                    low,
                    high,
                    even,
                    (evict t).sum,
                    summed ∙ ap (λ w. total w) last,
                    mean ∙ ap (λ c. (evict t).sum ⊘ c) read.made_for.1,
                  )
            | inr b ↦ rw (b, next) (ground (arith, b, much, read.made_for.0))
          ],
        )

    fed-HasRead :
        (seen : List D) (xs : List V) (s : BollingerBands D)
        → HasRead period seen s
        → HasRead period (seen ++ map i.value xs) (fed (bollinger sqrt i) s xs)
    fed-HasRead seen [] s r = subst (λ l. HasRead period l s) (sym (append-nil seen)) r
    fed-HasRead seen (x ∷ xs) s r =
        subst (λ l. HasRead period l (fed (bollinger sqrt i) (next sqrt i x s).1 xs))
          (append_assoc seen (i.value x ∷ []) (map i.value xs))
          (fed-HasRead (seen ++ (i.value x ∷ [])) xs (next sqrt i x s).1
            (next-HasRead seen x s r).0)

  -- With exact decimals and a `sqrt` without roots below zero, bands that `new` makes give for an input no
  -- value until they have read as many as their period, this one included; then the middle band is the sum
  -- of the last so many divided by the period, and the lower and the upper band are no higher and no lower
  -- than it, equally far away.
  pub next_bands :
      {V : Type 0} (i : Input V D) (period : ℕ) (multiplier : D) (s : BollingerBands D)
      → new period multiplier ≡ ok s
      → (xs : List V) (x : V)
      → AreBandsOf period
          (map i.value xs ++ (i.value x ∷ []))
          (next sqrt i x (fed (bollinger sqrt i) s xs)).0
  unfolding new decimal_from_usize
  next_bands i period multiplier s h xs x =
      let (positive, whole) = built (period == 0) (multiplier <? nought) _ _ _ s h in
      let fresh = subst (HasRead period []) (sym whole) (record {
        made_for = (refl, refl, ground (arith, positive, laws.units-nought));
        last = recent_nil period;
        summed = laws.units-nought;
      }) in
      (next-HasRead i period (map i.value xs) x _ (fed-HasRead i period [] xs s fresh)).1
    where
      built :
          (k l : Bool) (x y : IndicatorError D) (a s : BollingerBands D)
          → (if k then err x else if l then err y else ok a) ≡ ok s
          → (l ≡ false) × (s ≡ a)
      built true l x y a s h = absurd cc
      built false l x y a s h = ok_if l y a s h
