-- ===== src/Paper/Conditional/Sorted.antt =====
-- The events of a group in the order of their priority.
use Prim.Derive.{subst}
use tesser.Prelude.{
  ◌≤◌, ◌≡◌, ◌≢◌, refl, ◌⊎◌, inl, inr, List, [], ◌∷◌, arith, ltb, All, All-imp, Bool-cases,
}
use tesser.Prelude.Bytes.{text_key}
use tesser.Paper.Conditional.{TriggeredOrder, priority, insert_by_priority, sort_by_priority}
use tesser.Paper.Conditional.Groups.{insert-All}

module _ {D : Type 0} where
  abbrev pub IsIn : TriggeredOrder D → List (TriggeredOrder D) → Type 0
  IsIn e [] = ⊥
  IsIn e (x ∷ xs) = (e ≡ x) ⊎ IsIn e xs

  -- No event of the list goes before this one.
  abbrev pub Wins : TriggeredOrder D → List (TriggeredOrder D) → Type 0
  Wins e es = All (λ (t : TriggeredOrder D). priority e.kind ≤ priority t.kind) es

  -- the head goes before the rest, and all that is in the list stays in it
  abbrev IsLed : List (TriggeredOrder D) → Type 0
  IsLed [] = Unit
  IsLed (x ∷ xs) = Wins x xs

  insert-IsLed :
      (e : TriggeredOrder D) (es : List (TriggeredOrder D))
      → IsLed es
      → IsLed (insert_by_priority e es)
  insert-IsLed e [] l = tt
  insert-IsLed e (x ∷ xs) l = elim (Bool-cases (ltb (priority x.kind) (priority e.kind))) [
    | inl h ↦ rw h (
        insert-All (λ (t : TriggeredOrder D). priority x.kind ≤ priority t.kind) e xs
          (ground (arith, h)) l)
    | inr h ↦
        let first : priority e.kind ≤ priority x.kind = ground (arith, h) in
        rw h (first, All-imp (λ t k. omega (arith, first, k)) xs l)
  ]

  sort-IsLed : (es : List (TriggeredOrder D)) → IsLed (sort_by_priority es)
  sort-IsLed [] = tt
  sort-IsLed (e ∷ es) = insert-IsLed e (sort_by_priority es) (sort-IsLed es)

  -- what holds of all after the insertion held of all before it
  insert-All-inv :
      (P : TriggeredOrder D → Type 0) (e : TriggeredOrder D) (es : List (TriggeredOrder D))
      → All P (insert_by_priority e es)
      → P e × All P es
  insert-All-inv P e [] = λ a. a
  insert-All-inv P e (x ∷ xs) = elim (Bool-cases (ltb (priority x.kind) (priority e.kind))) [
    | inl h ↦ rw h (λ (px, a). let (pe, later) = insert-All-inv P e xs a in (pe, (px, later)))
    | inr h ↦ rw h (λ a. a)
  ]

  sort-All-inv :
      (P : TriggeredOrder D → Type 0) (es : List (TriggeredOrder D))
      → All P (sort_by_priority es)
      → All P es
  sort-All-inv P [] a = tt
  sort-All-inv P (e ∷ es) a =
      let (p, later) = insert-All-inv P e (sort_by_priority es) a in (p, sort-All-inv P es later)

  insert-IsIn :
      (t e : TriggeredOrder D) (es : List (TriggeredOrder D))
      → IsIn t (insert_by_priority e es)
      → (t ≡ e) ⊎ IsIn t es
  insert-IsIn t e [] = λ i. i
  insert-IsIn t e (x ∷ xs) = elim (Bool-cases (ltb (priority x.kind) (priority e.kind))) [
    | inl h ↦ rw h (elim [
      | inl here ↦ inr (inl here)
      | inr later ↦ elim (insert-IsIn t e xs later) [
        | inl here ↦ inl here
        | inr other ↦ inr (inr other)
      ]
    ])
    | inr h ↦ rw h (λ i. i)
  ]

  sort-IsIn :
      (t : TriggeredOrder D) (es : List (TriggeredOrder D))
      → IsIn t (sort_by_priority es)
      → IsIn t es
  sort-IsIn t [] i = i
  sort-IsIn t (e ∷ es) i = elim (insert-IsIn t e (sort_by_priority es) i) [
    | inl h ↦ inl h
    | inr h ↦ inr (sort-IsIn t es h)
  ]

  pub List-cases :
      (es : List (TriggeredOrder D))
      → (es ≡ []) ⊎ ((e : TriggeredOrder D) × (rest : List (TriggeredOrder D)) × (es ≡ e ∷ rest))
  List-cases [] = inl refl
  List-cases (e ∷ es) = inr (e, es, refl)

  insert-some : (e : TriggeredOrder D) (es : List (TriggeredOrder D)) → insert_by_priority e es ≢ []
  insert-some e [] = λ h. absurd (grind (arith, h))
  insert-some e (x ∷ xs) = λ h. absurd (ground (arith, h))

  pub sort-none : (es : List (TriggeredOrder D)) → sort_by_priority es ≡ [] → es ≡ []
  sort-none [] h = refl
  sort-none (e ∷ es) h = absurd (insert-some e (sort_by_priority es) h)

  -- what the sort begins with wins, and is one of the events
  pub sorted-Wins :
      (e : TriggeredOrder D) (rest es : List (TriggeredOrder D))
      → sort_by_priority es ≡ e ∷ rest
      → IsIn e es × Wins e es
  sorted-Wins e rest es h = (
    sort-IsIn e es (rw h (inl refl)),
    sort-All-inv (λ (t : TriggeredOrder D). priority e.kind ≤ priority t.kind) es
        (rw h (omega arith, led)),
  )
    where
      led : Wins e rest
      led = subst IsLed h (sort-IsLed es)
