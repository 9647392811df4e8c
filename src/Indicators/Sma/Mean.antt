-- ===== src/Indicators/Sma/Mean.antt =====
-- The rolling mean is the mean of the last inputs.
use Prim.Derive.{subst}
use mathlib.Core.List.{append-nil, append_assoc}
use tesser.Prelude.{
  ℕ, ◌≤◌, ◌<◌, ◌≡◌, refl, sym, ◌∙◌, ap, Option, none, some, List, [], ◌∷◌, ◌++◌, arith,
  if◌then◌else◌, inl, inr, Bool-cases, ◌==◌, ltb, map, length, List-cases,
}
use tesser.Prelude.Int.{ℤ, ◌+ℤ◌, +ℤ_parts, eq_of_parts}
use tesser.Prelude.Result.{ok, ok_if}
use tesser.Decimal.{Decimal, units, of_ℕ, ◌⊕◌, ◌⊖◌, ◌⊘◌}
use tesser.Decimal.Laws.{IsExact}
use tesser.Decimal.Parts.{sub_parts}
use tesser.Indicators.{Input, fed, decimal_from_usize}
use tesser.Indicators.Window.{
  pop_front, push_queue, recent, recent_nil, push_queue-recent, length-recent, total, total-snoc,
}
use tesser.Indicators.Sma.{Sma, new, evict, next, sma}

module _ {D : Type 0} ⦃d : Decimal D⦄ where
  -- a state that has read these values
  record HasRead (period : ℕ) (seen : List D) (s : Sma D) : Type 0 where
    made_for : (s.period ≡ period) × (s.divisor ≡ of_ℕ period)
    last : s.window ≡ recent period seen
    summed : units s.sum ≡ total s.window

  -- The mean of the last values: none until there are as many as the period, then their sum divided by
  -- the period.
  abbrev pub IsMeanOf : ℕ → List D → Option D → Type 0
  IsMeanOf period seen none = length seen < period
  IsMeanOf period seen (some mean) =
      (period ≤ length seen)
      × (sum : D) × (units sum ≡ total (recent period seen))
      × (mean ≡ sum ⊘ of_ℕ period)

module _ {D : Type 0} ⦃d : Decimal D⦄ (laws : IsExact D) where
  pub popped :
      (sum oldest : D) (rest : ℤ) → units sum ≡ units oldest +ℤ rest → units (sum ⊖ oldest) ≡ rest
  popped sum oldest rest h =
      eq_of_parts _ _ (ground (arith, h, sub_parts laws sum oldest, +ℤ_parts (units oldest) rest))

  evict-window :
      (s : Sma D)
      → units s.sum ≡ total s.window
      → ((evict s).window
          ≡ (if ltb s.period (length s.window) then pop_front s.window else s.window))
        × (units (evict s).sum ≡ total (evict s).window)
        × ((evict s).period ≡ s.period)
        × ((evict s).divisor ≡ s.divisor)
  evict-window s h = elim (Bool-cases (ltb s.period (length s.window))) [
    | inr b ↦ rw (b, evict) (refl, h, refl, refl)
    | inl b ↦ elim (List-cases s.window) [
      | inl e ↦ rw (b, e, evict) (e, h, refl, refl)
      | inr (x, rest, e) ↦
          rw (b, e, evict) (refl, popped s.sum x (total rest) (h ∙ ap (λ w. total w) e), refl, refl)
    ]
  ]

  module _ {V : Type 0} (i : Input V D) (period : ℕ) where
    next-HasRead :
        (seen : List D) (x : V) (s : Sma D)
        → HasRead period seen s
        → HasRead period (seen ++ (i.value x ∷ [])) (next i x s).1
          × IsMeanOf period (seen ++ (i.value x ∷ [])) (next i x s).0
    unfolding next push_queue
    next-HasRead seen x s r =
        let v = i.value x in
        let t = record s { sum = s.sum ⊕ v; window = s.window ++ (v ∷ []) } in
        let counted : units t.sum ≡ total t.window =
          laws.units-add s.sum v ∙ ap (λ n. n +ℤ units v) r.summed ∙ sym (total-snoc s.window v) in
        let (window, summed, same, divisor) = evict-window t counted in
        let last : (evict t).window ≡ recent period (seen ++ (v ∷ [])) =
          window
          ∙ ap (λ p. push_queue p v s.window) r.made_for.0
          ∙ ap (λ w. push_queue period v w) r.last
          ∙ push_queue-recent period seen v in
        let read : HasRead period (seen ++ (v ∷ [])) (evict t) = record {
          made_for = (same ∙ r.made_for.0, divisor ∙ r.made_for.1);
          last = last;
          summed = summed;
        } in
        let much = ap (λ w. length w) last ∙ length-recent period (seen ++ (v ∷ [])) in
        (
          read,
          elim (Bool-cases (length (evict t).window == (evict t).period)) [
            | inl b ↦
                rw (b, next)
                  (
                    ground (arith, b, much, read.made_for.0),
                    (evict t).sum,
                    summed ∙ ap (λ w. total w) last,
                    ap (λ c. (evict t).sum ⊘ c) read.made_for.1,
                  )
            | inr b ↦ rw (b, next) (ground (arith, b, much, read.made_for.0))
          ],
        )

    fed-HasRead :
        (seen : List D) (xs : List V) (s : Sma D)
        → HasRead period seen s
        → HasRead period (seen ++ map i.value xs) (fed (sma i) s xs)
    fed-HasRead seen [] s r = subst (λ l. HasRead period l s) (sym (append-nil seen)) r
    fed-HasRead seen (x ∷ xs) s r =
        subst (λ l. HasRead period l (fed (sma i) (next i x s).1 xs))
          (append_assoc seen (i.value x ∷ []) (map i.value xs))
          (fed-HasRead (seen ++ (i.value x ∷ [])) xs (next i x s).1 (next-HasRead seen x s r).0)

  -- With exact decimals, a rolling mean that `new` makes gives for an input no value until it has read as
  -- many as its period, this one included, and then exactly the sum of the last so many divided by the
  -- period, though it keeps a running sum and never adds up its window.
  pub next_mean :
      {V : Type 0} (i : Input V D) (period : ℕ) (s : Sma D)
      → new period ≡ ok s
      → (xs : List V) (x : V)
      → IsMeanOf period (map i.value xs ++ (i.value x ∷ [])) (next i x (fed (sma i) s xs)).0
  unfolding new decimal_from_usize
  next_mean i period s h xs x =
      let fresh = subst (HasRead period []) (sym (ok_if (period == 0) _ _ s h).1) (record {
        made_for = (refl, refl);
        last = recent_nil period;
        summed = laws.units-nought;
      }) in
      (next-HasRead i period (map i.value xs) x _ (fed-HasRead i period [] xs s fresh)).1
