-- ===== src/Paper/Conditional/Wins.antt =====
-- The event that wins its group, and what is left of the group.
use Prim.Derive.{subst}
use tesser.Prelude.{
  ◌≡◌, ◌≢◌, refl, sym, ◌∙◌, ap, ◌⊎◌, inl, inr, Bool, true, false, Option, none, some, List, [], ◌∷◌,
  arith, if◌then◌else◌, Option-cases, Bool-cases,
}
use tesser.Prelude.HashMap.{HashMap}
use tesser.Prelude.Bytes.{same_text, same_text_iff, text_key}
use tesser.Core.Types.{Text, Time}
use tesser.Paper.Conditional.{
  TriggeredOrder, PendingConditional, ConditionalOrderManager, split, collect, sort_by_priority,
  first_of, drop_groups, contains, keep_groups, evaluate,
}
use tesser.Paper.Conditional.Groups.{
  IsTidy, absent-found, collect-IsTidy, of_group, found, found-collect, resolved-best,
}
use tesser.Paper.Conditional.Sorted.{IsIn, Wins, List-cases, sort-none, sorted-Wins}

apart :
    (g k : Text) (groups : List Text) {b c : Bool}
    → contains g groups ≡ b
    → contains k groups ≡ c
    → b ≢ c
    → same_text g k ≡ false
apart g k groups h c n = elim (Bool-cases (same_text g k)) [
  | inl s ↦
      let same : g ≡ k = (same_text_iff g k).0 s in
      let both : contains g groups ≡ contains k groups = ap (λ x. contains x groups) same in
      absurd (n (sym h ∙ both ∙ c))
  | inr s ↦ s
]

module _ {D : Type 0} where
  contains-later :
      (g k : Text) (es : List (TriggeredOrder D)) (grouped : HashMap Text (List (TriggeredOrder D)))
      → contains g (drop_groups grouped) ≡ true
      → contains g (drop_groups ((k, es) ∷ grouped)) ≡ true
  contains-later g k es grouped h = ground (arith, h)

  first-found :
      (g k : Text) (es : List (TriggeredOrder D)) (grouped : HashMap Text (List (TriggeredOrder D)))
      → same_text g k ≡ true
      → found g ((k, es) ∷ grouped) ≡ es
  first-found g k es grouped s = ground (arith, s)

  other-found :
      (g k : Text) (es : List (TriggeredOrder D)) (grouped : HashMap Text (List (TriggeredOrder D)))
      → same_text g k ≡ false
      → found g ((k, es) ∷ grouped) ≡ found g grouped
  other-found g k es grouped s = ground (arith, s)

  dropped-first :
      (k : Text) (es : List (TriggeredOrder D)) (grouped : HashMap Text (List (TriggeredOrder D)))
      {e : TriggeredOrder D} {rest : List (TriggeredOrder D)}
      → sort_by_priority es ≡ e ∷ rest
      → drop_groups ((k, es) ∷ grouped) ≡ k ∷ drop_groups grouped
  dropped-first k es grouped h = ground (arith, h)

  -- a group with an event is dropped
  dropped :
      (g : Text) (grouped : HashMap Text (List (TriggeredOrder D))) (e : TriggeredOrder D)
      (rest : List (TriggeredOrder D))
      → sort_by_priority (found g grouped) ≡ e ∷ rest
      → contains g (drop_groups grouped) ≡ true
  dropped g [] e rest h = absurd (grind (arith, h))
  dropped g ((k, es) ∷ grouped) e rest h = elim (Bool-cases (same_text g k)) [
    | inl s ↦
        let own = first-found g k es grouped s in
        let led : sort_by_priority es ≡ e ∷ rest = ap sort_by_priority (sym own) ∙ h in
        ap (contains g) (dropped-first k es grouped led) ∙ rw s refl
    | inr s ↦
        let other = other-found g k es grouped s in
        let led : sort_by_priority (found g grouped) ≡ e ∷ rest =
          ap sort_by_priority (sym other) ∙ h in
        contains-later g k es grouped (dropped g grouped e rest led)
  ]

  -- the orders of a group that still wait
  abbrev pub waiting_of : Text → List (PendingConditional D) → List (PendingConditional D)
  waiting_of g [] = []
  waiting_of g (p ∷ pending) =
      let rest = waiting_of g pending in
      elim p.group [ none ↦ rest | some h ↦ if same_text g h then p ∷ rest else rest ]

  kept-none :
      (g : Text) (groups : List Text) (pending : List (PendingConditional D))
      → contains g groups ≡ true
      → waiting_of g (keep_groups groups pending) ≡ []
  kept-none g groups [] h = refl
  kept-none g groups (p ∷ pending) h = elim (Option-cases p.group) [
    | inl n ↦ simp n (kept-none g groups pending h)
    | inr (k, n) ↦ elim (Bool-cases (contains k groups)) [
      | inl c ↦ simp (n, c) (kept-none g groups pending h)
      | inr c ↦
          let other : same_text g k ≡ false = apart g k groups h c (λ e. absurd (cc e)) in
          simp (n, c, other) (kept-none g groups pending h)
    ]
  ]

  -- a group without an event is not dropped
  not_dropped :
      (g : Text) (grouped : HashMap Text (List (TriggeredOrder D)))
      → IsTidy grouped
      → found g grouped ≡ []
      → contains g (drop_groups grouped) ≡ false
  not_dropped g [] t h = refl
  not_dropped g ((k, es) ∷ grouped) (own, absent, t) h = elim (Bool-cases (same_text g k)) [
    | inl s ↦
        let same : g ≡ k = (same_text_iff g k).0 s in
        let empty : es ≡ [] = sym (first-found g k es grouped s) ∙ h in
        let gone : found g grouped ≡ [] =
          subst (λ x. found x grouped ≡ []) (sym same) (absent-found k grouped absent) in
        ap (λ x. contains g (drop_groups ((k, x) ∷ grouped))) empty ∙ not_dropped g grouped t gone
    | inr s ↦
        let later = not_dropped g grouped t (sym (other-found g k es grouped s) ∙ h) in
        ground (arith, s, later)
  ]

  kept-all :
      (g : Text) (groups : List Text) (pending : List (PendingConditional D))
      → contains g groups ≡ false
      → waiting_of g (keep_groups groups pending) ≡ waiting_of g pending
  kept-all g groups [] h = refl
  kept-all g groups (p ∷ pending) h = elim (Option-cases p.group) [
    | inl n ↦ simp n (kept-all g groups pending h)
    | inr (k, n) ↦
        let later = kept-all g groups pending h in
        elim (Bool-cases (contains k groups)) [
          | inl c ↦
              let other : same_text g k ≡ false = apart g k groups h c (λ e. absurd (cc e)) in
              simp (n, c, other) later
          | inr c ↦ simp (n, c) (ap (λ x. if same_text g k then p ∷ x else x) later)
        ]
  ]

  untouched :
      (g : Text) (touches : PendingConditional D → Option (D × Time))
      (pending : List (PendingConditional D))
      → of_group g (split touches pending).0 ≡ []
      → waiting_of g (split touches pending).1 ≡ waiting_of g pending
  untouched g touches [] h = refl
  untouched g touches (p ∷ pending) h = ground (arith, h, untouched g touches pending, same_text g)

  -- what a group gets for the events that its orders trigger
  abbrev pub ResolvesOnce :
      Text
      → List (TriggeredOrder D)
      → ConditionalOrderManager D
      → ConditionalOrderManager D × List (TriggeredOrder D)
      → Type 0
  ResolvesOnce g events before (after, resolved) =
      ((events ≡ [])
        × (of_group g resolved ≡ [])
        × (waiting_of g after.orders ≡ waiting_of g before.orders))
      ⊎ ((e : TriggeredOrder D) × (of_group g resolved ≡ e ∷ [])
          × IsIn e events
          × Wins e events
          × (waiting_of g after.orders ≡ []))

  -- Whatever orders a price touches, a group is resolved at most once. Without a touched order nothing
  -- of it is triggered, and all its orders go on waiting. With one, exactly one of its touched orders
  -- is triggered, none of them goes before it in priority, and no order of the group waits any more.
  pub resolved_once :
      (touches : PendingConditional D → Option (D × Time)) (m : ConditionalOrderManager D)
      (g : Text)
      → ResolvesOnce g (of_group g (split touches m.orders).0) m (evaluate touches m)
  unfolding evaluate
  resolved_once touches m g = elim (List-cases (sort_by_priority (of_group g triggered))) [
    | inl h ↦
        let empty = sort-none _ h in
        inl (
          empty,
          resolved-best g triggered ∙ ap first_of h,
          kept-all g (drop_groups (collect triggered [])) survivors (
                not_dropped g (collect triggered []) (collect-IsTidy triggered [] tt)
                  (found-collect g triggered [] ∙ empty))
              ∙ untouched g touches m.orders empty,
        )
    | inr (e, rest, h) ↦
        let (member, wins) = sorted-Wins e rest (of_group g triggered) h in
        let led : sort_by_priority (found g (collect triggered [])) ≡ e ∷ rest =
          ap sort_by_priority (found-collect g triggered []) ∙ h in
        inr (
          e,
          resolved-best g triggered ∙ ap first_of h,
          member,
          wins,
          kept-none g (drop_groups (collect triggered [])) survivors (dropped g _ e rest led),
        )
  ]
    where
      triggered : List (TriggeredOrder D)
      triggered = (split touches m.orders).0

      survivors : List (PendingConditional D)
      survivors = (split touches m.orders).1
