-- ===== src/Indicators/Macd/Warmup.antt =====
-- When a convergence of means has a value.
use Prim.Derive.{subst}
use tesser.Prelude.{
  ℕ, suc, ◌+◌, ◌-◌, ◌<◌, ◌≡◌, refl, sym, ◌∙◌, ap, Bool, true, false, none, List, [], ◌∷◌, ◌⊎◌,
  arith, if◌then◌else◌, inl, inr, Option-cases, ◌==◌, leb, length,
}
use tesser.Prelude.Result.{ok, err, ◌>>=◌}
use tesser.Decimal.{Decimal, ◌⊖◌}
use tesser.Indicators.{IndicatorError, decimal_input, fed}
use tesser.Indicators.Ema
use tesser.Indicators.Ema.{start}
use tesser.Indicators.Ema.Warmup.{HasRead, is_some, start-HasRead, next-HasRead}
use tesser.Indicators.Macd.{Macd, made, new, next, macd}

abbrev pub later : ℕ → ℕ → ℕ
later a b = if leb a b then b else a

module _ {D : Type 0} where
  -- the mean of the line has read as many values as both other means have had
  record IsWarm (s : Macd D) (f v g n : ℕ) : Type 0 where
    fast_read : HasRead s.fast f n
    slow_read : HasRead s.slow v n
    signal_read : HasRead s.signal g (suc n - later f v)

-- until both means have values, the line is not read
not_yet :
    (f v g n : ℕ)
    → 0 < g
    → (leb f (suc n) ≡ false) ⊎ (leb v (suc n) ≡ false)
    → (suc n - later f v ≡ suc (suc n) - later f v) × (false ≡ leb (later f v + g) (suc (suc n)))
not_yet f v g n p h = ground (arith, p, h)

-- and from then on it is
from_now :
    (f v g n : ℕ)
    → leb f (suc n) ≡ true
    → leb v (suc n) ≡ true
    → (suc (suc n - later f v) ≡ suc (suc n) - later f v)
      × (leb g (suc (suc n - later f v)) ≡ leb (later f v + g) (suc (suc n)))
from_now f v g n h k = ground (arith, h, k)

module _ {D : Type 0} ⦃d : Decimal D⦄ where
  next-IsWarm :
      (x : D) (s : Macd D) (f v g n : ℕ)
      → 0 < g
      → IsWarm s f v g n
      → IsWarm (next x s).1 f v g (suc n)
        × (is_some (next x s).0 ≡ leb (later f v + g) (suc (suc n)))
  unfolding next
  next-IsWarm x s f v g n p w =
      let fast = next-HasRead decimal_input x s.fast f n w.fast_read in
      let slow = next-HasRead decimal_input x s.slow v n w.slow_read in
      elim (Option-cases (Ema.next decimal_input x s.fast).0) [
        | inl e ↦
            let wait = not_yet f v g n p (inl (sym fast.1 ∙ ap (λ o. is_some o) e)) in
            rw (e, next)
              (
                record {
                  fast_read = fast.0;
                  slow_read = slow.0;
                  signal_read = subst (HasRead s.signal g) wait.0 w.signal_read;
                },
                wait.1,
              )
        | inr (a, e) ↦ elim (Option-cases (Ema.next decimal_input x s.slow).0) [
          | inl h ↦
              let wait = not_yet f v g n p (inr (sym slow.1 ∙ ap (λ o. is_some o) h)) in
              rw (e, h, next)
                (
                  record {
                    fast_read = fast.0;
                    slow_read = slow.0;
                    signal_read = subst (HasRead s.signal g) wait.0 w.signal_read;
                  },
                  wait.1,
                )
          | inr (b, h) ↦
              let signal = next-HasRead decimal_input (a ⊖ b) s.signal g _ w.signal_read in
              let now =
                from_now f v g n (sym fast.1 ∙ ap (λ o. is_some o) e)
                  (sym slow.1 ∙ ap (λ o. is_some o) h) in
              let read = subst (HasRead _ g) now.0 signal.0 in
              elim (Option-cases (Ema.next decimal_input (a ⊖ b) s.signal).0) [
                | inl k ↦
                    rw (e, h, k, next)
                      (
                        record { fast_read = fast.0; slow_read = slow.0; signal_read = read },
                        sym (ap (λ o. is_some o) k) ∙ signal.1 ∙ now.1,
                      )
                | inr (l, k) ↦
                    rw (e, h, k, next)
                      (
                        record { fast_read = fast.0; slow_read = slow.0; signal_read = read },
                        sym (ap (λ o. is_some o) k) ∙ signal.1 ∙ now.1,
                      )
              ]
        ]
      ]

  pub new-made :
      (f v g : ℕ) (s : Macd D) → new f v g ≡ ok s → (0 < f) × (0 < v) × (0 < g) × (s ≡ made f v g)
  unfolding new Ema.new
  new-made f v g s h =
      let (a, b, c, whole) =
        built (f == 0) (v == 0) (g == 0) _ _ _ _ _ _ (start f) (start v) (start g) s h in
      (ground (arith, a), ground (arith, b), ground (arith, c), whole)
    where
      built :
          (a b c : Bool) (x y z k l m : IndicatorError D) (f v g : Ema.Ema D) (s : Macd D)
          → (if a then err x else if b then err y else if c then err z else do
            f' ← (if a then err k else ok f)
            v' ← (if b then err l else ok v)
            g' ← (if c then err m else ok g)
            ok (record { fast = f'; slow = v'; signal = g'; last_histogram = none }))
            ≡ ok s
          → (a ≡ false)
            × (b ≡ false)
            × (c ≡ false)
            × (s ≡ record { fast = f; slow = v; signal = g; last_histogram = none })
      built true b c x y z k l m f v g s h = absurd cc
      built false true c x y z k l m f v g s h = absurd cc
      built false false true x y z k l m f v g s h = absurd cc
      built false false false x y z k l m f v g s h = (refl, refl, refl, cc)

  new-IsWarm : (f v g : ℕ) (s : Macd D) → new f v g ≡ ok s → (0 < g) × IsWarm s f v g 0
  new-IsWarm f v g s h =
      let (a, b, c, made) = new-made f v g s h in
      (
        c,
        subst (λ m. IsWarm m f v g 0) (sym made)
            (record {
              fast_read = start-HasRead f a;
              slow_read = start-HasRead v b;
              signal_read =
                  subst (HasRead {D = D} (start g) g) (ground (arith, a, b)) (start-HasRead g c);
            }),
      )

  fed-IsWarm :
      (xs : List D) (s : Macd D) (f v g n : ℕ)
      → 0 < g
      → IsWarm s f v g n
      → IsWarm (fed macd s xs) f v g (length xs + n)
  fed-IsWarm [] s f v g n p w = subst (IsWarm s f v g) (omega arith) w
  fed-IsWarm (x ∷ xs) s f v g n p w =
      subst (IsWarm (fed macd (next x s).1 xs) f v g) (omega arith)
        (fed-IsWarm xs (next x s).1 f v g (suc n) p (next-IsWarm x s f v g n p w).0)

  -- A convergence that `new` makes of a fast, a slow and a signal period has a value for an input exactly
  -- when with this input it has read at least as many as the longer of the fast and the slow period and
  -- the signal period come to, less one.
  pub emits_from :
      (fast slow signal : ℕ) (s : Macd D)
      → new fast slow signal ≡ ok s
      → (xs : List D) (x : D)
      → is_some (next x (fed macd s xs)).0 ≡ leb (later fast slow + signal) (suc (suc (length xs)))
  emits_from fast slow signal s h xs x =
      let made = new-IsWarm fast slow signal s h in
      (next-IsWarm x (fed macd s xs) fast slow signal (length xs) made.0 (
        subst (IsWarm (fed macd s xs) fast slow signal) (omega arith)
          (fed-IsWarm xs s fast slow signal 0 made.0 made.1))).1
