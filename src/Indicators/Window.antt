-- ===== src/Indicators/Window.antt =====
-- tesser-indicators/src/indicators/ichimoku.rs: `push_queue`, which the rolling windows of all indicators
-- come down to.
use tesser.Prelude.{
  ℕ, zero, suc, ◌-◌, ◌≤◌, ◌≡◌, refl, sym, ◌∙◌, ap, inl, inr, List, [], ◌∷◌, ◌++◌, arith,
  if◌then◌else◌, ltb, Bool-cases, length, length-append, length-drop, drop,
}
use tesser.Prelude.Int.{ℤ, pos, ◌+ℤ◌, +ℤ_parts, eq_of_parts}
use tesser.Decimal.{Decimal, units}

module _ {A : Type 0} where
  -- `pop_front`
  abbrev pub pop_front : List A → List A
  pop_front [] = []
  pop_front (x ∷ xs) = xs

  unfoldable pub push_queue : ℕ → A → List A → List A
  push_queue period value queue =
      let pushed = queue ++ (value ∷ []) in
      if ltb period (length pushed) then pop_front pushed else pushed

  -- the last elements of a list, at most so many
  abbrev pub recent : ℕ → List A → List A
  recent period xs = drop (length xs - period) xs

  pub recent_nil : (period : ℕ) → Path (List A) [] (recent period [])
  recent_nil period = none_left (0 - period)
    where
      none_left : (k : ℕ) → Path (List A) [] (drop k [])
      none_left zero = refl
      none_left (suc k) = refl

  drop_one_more : (k : ℕ) (xs : List A) → pop_front (drop k xs) ≡ drop (suc k) xs
  drop_one_more zero [] = refl
  drop_one_more zero (x ∷ xs) = refl
  drop_one_more (suc k) [] = refl
  drop_one_more (suc k) (x ∷ xs) = drop_one_more k xs

  drop-snoc :
      (k : ℕ) (xs : List A) (x : A)
      → k ≤ length xs
      → drop k (xs ++ (x ∷ [])) ≡ drop k xs ++ (x ∷ [])
  drop-snoc zero xs x h = refl
  drop-snoc (suc k) [] x h = absurd (omega arith)
  drop-snoc (suc k) (y ∷ xs) x h = drop-snoc k xs x (omega arith)

  pub length-recent :
      (period : ℕ) (xs : List A) → length (recent period xs) ≡ length xs - (length xs - period)
  length-recent period xs = length-drop (length xs - period) xs

  -- A queue that holds the last elements of a list holds the last ones of the list and a new element,
  -- after the new element is pushed.
  pub push_queue-recent :
      (period : ℕ) (xs : List A) (x : A)
      → push_queue period x (recent period xs) ≡ recent period (xs ++ (x ∷ []))
  unfolding push_queue
  push_queue-recent period xs x =
      let n = length xs in
      let snoc = drop-snoc (n - period) xs x (omega arith) in
      let len = length-append (recent period xs) (x ∷ []) in
      let more = length-append xs (x ∷ []) in
      elim (Bool-cases (ltb period (length (recent period xs ++ (x ∷ []))))) [
        | inl b ↦
            let one_more : suc (n - period) ≡ length (xs ++ (x ∷ [])) - period =
              ground (arith, b, len, more, length-recent period xs) in
            rw (b, push_queue)
              (ap (λ q. pop_front q) (sym snoc)
                ∙ drop_one_more (n - period) (xs ++ (x ∷ []))
                ∙ ap (λ k. drop k (xs ++ (x ∷ []))) one_more)
        | inr b ↦
            let all : n - period ≡ length (xs ++ (x ∷ [])) - period =
              ground (arith, b, len, more, length-recent period xs) in
            rw (b, push_queue) (sym snoc ∙ ap (λ k. drop k (xs ++ (x ∷ []))) all)
      ]

module _ {D : Type 0} ⦃d : Decimal D⦄ where
  -- what decimals come to, in smallest steps
  abbrev pub total : List D → ℤ
  total [] = pos 0
  total (x ∷ xs) = units x +ℤ total xs

  pub total-snoc : (xs : List D) (x : D) → total (xs ++ (x ∷ [])) ≡ total xs +ℤ units x
  total-snoc [] x =
      eq_of_parts _ _ (omega (arith, +ℤ_parts (units x) (pos 0), +ℤ_parts (pos 0) (units x)))
  total-snoc (y ∷ xs) x =
      ap (λ t. units y +ℤ t) (total-snoc xs x) ∙ regroup (units y) (total xs) (units x)
    where
      regroup : (a b c : ℤ) → a +ℤ (b +ℤ c) ≡ (a +ℤ b) +ℤ c
      regroup a b c =
          eq_of_parts _ _
            (omega (arith, +ℤ_parts a b, +ℤ_parts (a +ℤ b) c, +ℤ_parts b c, +ℤ_parts a (b +ℤ c)))
