-- ===== src/Paper/Conditional/Groups.antt =====
-- Of the orders of one group that a price touches, one is triggered.
use tesser.Prelude.{
  ◌≡◌, ◌≢◌, refl, sym, ◌∙◌, ap, inl, inr, Bool, false, none, some, List, [], ◌∷◌, ◌++◌, arith,
  if◌then◌else◌, ltb, All, All-append, Option-cases, Bool-cases,
}
use mathlib.Core.List.{append-nil, append_assoc}
use tesser.Prelude.HashMap.{HashMap, lookup, entry_or, lookup-entry_or}
use tesser.Prelude.Bytes.{same_text, same_text_iff, text_key}
use tesser.Core.Types.{Text}
use tesser.Paper.Conditional.{
  TriggeredOrder, priority, ungrouped, collect, insert_by_priority, sort_by_priority, first_of,
  best_events,
}

module _ {D : Type 0} where
  abbrev pub in_group : Text → TriggeredOrder D → Bool
  in_group g e = elim e.group [ none ↦ false | some h ↦ same_text g h ]

  -- the events of a group
  abbrev pub of_group : Text → List (TriggeredOrder D) → List (TriggeredOrder D)
  of_group g [] = []
  of_group g (e ∷ events) = if in_group g e then e ∷ of_group g events else of_group g events

  of_group-append :
      (g : Text) (xs ys : List (TriggeredOrder D))
      → of_group g (xs ++ ys) ≡ of_group g xs ++ of_group g ys
  of_group-append g [] ys = refl
  of_group-append g (x ∷ xs) ys = ground (arith, of_group-append g xs ys)

  of_group-ungrouped :
      (g : Text) (events : List (TriggeredOrder D)) → of_group g (ungrouped events) ≡ []
  of_group-ungrouped g [] = refl
  of_group-ungrouped g (e ∷ events) = ground (arith, of_group-ungrouped g events)

  -- the events that a map has for a group
  abbrev pub found : Text → HashMap Text (List (TriggeredOrder D)) → List (TriggeredOrder D)
  found g grouped = elim (lookup g grouped) [ none ↦ [] | some es ↦ es ]

  found-put :
      (g h : Text) (e : TriggeredOrder D) (grouped : HashMap Text (List (TriggeredOrder D)))
      → found g (entry_or h [] (λ es. es ++ (e ∷ [])) grouped)
        ≡ (if same_text g h then found g grouped ++ (e ∷ []) else found g grouped)
  found-put g h e grouped = elim (Bool-cases (same_text g h)) [
    | inl s ↦
        let same : g ≡ h = (same_text_iff g h).0 s in
        let put = lookup-entry_or h g [] (λ es. es ++ (e ∷ [])) grouped in
        let at : lookup g grouped ≡ lookup h grouped = ap (λ x. lookup x grouped) same in
        ground (arith, s, put, at)
    | inr s ↦ ground (arith, s, lookup-entry_or h g [] (λ es. es ++ (e ∷ [])) grouped)
  ]

  collected :
      (e : TriggeredOrder D) (events : List (TriggeredOrder D))
      (grouped : HashMap Text (List (TriggeredOrder D))) {h : Text}
      → e.group ≡ some h
      → collect (e ∷ events) grouped ≡ collect events (entry_or h [] (λ es. es ++ (e ∷ [])) grouped)
  collected e events grouped n = simp n refl

  pub found-collect :
      (g : Text) (events : List (TriggeredOrder D))
      (grouped : HashMap Text (List (TriggeredOrder D)))
      → found g (collect events grouped) ≡ found g grouped ++ of_group g events
  found-collect g [] grouped = sym (append-nil (found g grouped))
  found-collect g (e ∷ events) grouped = elim (Option-cases e.group) [
    | inl n ↦ rw n (found-collect g events grouped)
    | inr (h, n) ↦
        let put = entry_or h [] (λ es. es ++ (e ∷ [])) grouped in
        let step : found g (collect (e ∷ events) grouped) ≡ found g put ++ of_group g events =
          ap (found g) (collected e events grouped n) ∙ found-collect g events put in
        elim (Bool-cases (same_text g h)) [
          | inl s ↦
              let here : found g put ≡ found g grouped ++ (e ∷ []) =
                found-put g h e grouped ∙ rw s refl in
              let member : of_group g (e ∷ events) ≡ e ∷ of_group g events = ground (arith, n, s) in
              step
              ∙ ap (λ x. x ++ of_group g events) here
              ∙ append_assoc (found g grouped) (e ∷ []) (of_group g events)
              ∙ ap (λ x. found g grouped ++ x) (sym member)
          | inr s ↦
              let here : found g put ≡ found g grouped = found-put g h e grouped ∙ rw s refl in
              let member : of_group g (e ∷ events) ≡ of_group g events = ground (arith, n, s) in
              step
              ∙ ap (λ x. x ++ of_group g events) here
              ∙ ap (λ x. found g grouped ++ x) (sym member)
        ]
  ]

  -- every key once, and every event under its group
  abbrev pub IsAbsent : Text → HashMap Text (List (TriggeredOrder D)) → Type 0
  IsAbsent g [] = Unit
  IsAbsent g ((h, _) ∷ grouped) = (g ≢ h) × IsAbsent g grouped

  abbrev pub IsTidy : HashMap Text (List (TriggeredOrder D)) → Type 0
  IsTidy [] = Unit
  IsTidy ((g, es) ∷ grouped) =
      All (λ (e : TriggeredOrder D). e.group ≡ some g) es × IsAbsent g grouped × IsTidy grouped

  pub absent-found :
      (g : Text) (grouped : HashMap Text (List (TriggeredOrder D)))
      → IsAbsent g grouped
      → found g grouped ≡ []
  absent-found g [] a = refl
  absent-found g ((h, es) ∷ grouped) (n, a) =
      ground (arith, same_text_iff g h, absent-found g grouped a)

  -- the best of the events of a group
  abbrev pub best : List (TriggeredOrder D) → List (TriggeredOrder D)
  best es = first_of (sort_by_priority es)

  pub insert-All :
      (P : TriggeredOrder D → Type 0) (e : TriggeredOrder D) (es : List (TriggeredOrder D))
      → P e
      → All P es
      → All P (insert_by_priority e es)
  insert-All P e [] p a = (p, tt)
  insert-All P e (x ∷ xs) p (q, a) = elim (Bool-cases (ltb (priority x.kind) (priority e.kind))) [
    | inl h ↦ rw h (q, insert-All P e xs p a)
    | inr h ↦ rw h (p, (q, a))
  ]

  sort-All :
      (P : TriggeredOrder D → Type 0) (es : List (TriggeredOrder D))
      → All P es
      → All P (sort_by_priority es)
  sort-All P [] a = tt
  sort-All P (e ∷ es) (p, a) = insert-All P e (sort_by_priority es) p (sort-All P es a)

  of_group-all :
      (g : Text) (es : List (TriggeredOrder D))
      → All (λ (e : TriggeredOrder D). e.group ≡ some g) es
      → of_group g es ≡ es
  of_group-all g [] a = refl
  of_group-all g (e ∷ es) (p, a) = ground (arith, p, same_text_iff g g, of_group-all g es a)

  of_group-none :
      (g h : Text) (es : List (TriggeredOrder D))
      → g ≢ h
      → All (λ (e : TriggeredOrder D). e.group ≡ some h) es
      → of_group g es ≡ []
  of_group-none g h [] n a = refl
  of_group-none g h (e ∷ es) n (p, a) =
      ground (arith, p, same_text_iff g h, of_group-none g h es n a)

  first-All :
      (P : TriggeredOrder D → Type 0) (es : List (TriggeredOrder D))
      → All P es
      → All P (first_of es)
  first-All P [] a = tt
  first-All P (e ∷ es) (p, a) = (p, tt)

  best-All :
      (P : TriggeredOrder D → Type 0) (es : List (TriggeredOrder D)) → All P es → All P (best es)
  best-All P es a = first-All P (sort_by_priority es) (sort-All P es a)

  of_group-best_events :
      (g : Text) (grouped : HashMap Text (List (TriggeredOrder D)))
      → IsTidy grouped
      → of_group g (best_events grouped) ≡ best (found g grouped)
  of_group-best_events g [] t = refl
  of_group-best_events g ((h, es) ∷ grouped) (own, absent, t) =
      let apart = of_group-append g (best es) (best_events grouped) in
      let later = of_group-best_events g grouped t in
      let mine = best-All (λ e. e.group ≡ some h) es own in
      elim (Bool-cases (same_text g h)) [
        | inl s ↦
            let same : g ≡ h = (same_text_iff g h).0 s in
            let whole : of_group g (best es) ≡ best es =
              ap (λ x. of_group x (best es)) same ∙ of_group-all h (best es) mine in
            let gone : found g grouped ≡ [] =
              ap (λ x. found x grouped) same ∙ absent-found h grouped absent in
            let here : found g ((h, es) ∷ grouped) ≡ es = ground (arith, s) in
            apart
            ∙ ap (λ x. x ++ of_group g (best_events grouped)) whole
            ∙ ap (λ x. best es ++ x) (later ∙ ap best gone)
            ∙ append-nil (best es)
            ∙ ap best (sym here)
        | inr s ↦
            let other : g ≢ h = λ same. absurd (cc (s, (same_text_iff g h).1 same)) in
            let empty : of_group g (best es) ≡ [] = of_group-none g h (best es) other mine in
            let here : found g ((h, es) ∷ grouped) ≡ found g grouped = ground (arith, s) in
            apart
            ∙ ap (λ x. x ++ of_group g (best_events grouped)) empty
            ∙ later
            ∙ ap best (sym here)
      ]

  put-IsAbsent :
      (g h : Text) (f : List (TriggeredOrder D) → List (TriggeredOrder D))
      (grouped : HashMap Text (List (TriggeredOrder D)))
      → g ≢ h
      → IsAbsent g grouped
      → IsAbsent g (entry_or h [] f grouped)
  put-IsAbsent g h f [] n a = (n, tt)
  put-IsAbsent g h f ((k, es) ∷ grouped) n (m, a) = ground (arith, put-IsAbsent g h f grouped n a)

  put-IsTidy :
      (h : Text) (e : TriggeredOrder D) (grouped : HashMap Text (List (TriggeredOrder D)))
      → e.group ≡ some h
      → IsTidy grouped
      → IsTidy (entry_or h [] (λ es. es ++ (e ∷ [])) grouped)
  put-IsTidy h e [] n t = ((n, tt), tt, tt)
  put-IsTidy h e ((k, es) ∷ grouped) n (own, a, t) = elim (Bool-cases (same_text h k)) [
    | inl s ↦
        let same : h ≡ k = (same_text_iff h k).0 s in
        let mine : e.group ≡ some k = n ∙ ap some same in
        rw s
          (All-append (λ (x : TriggeredOrder D). x.group ≡ some k) es (e ∷ []) own (mine, tt), a, t)
    | inr s ↦
        let other : k ≢ h = λ same. absurd (cc (s, (same_text_iff h k).1 (sym same))) in
        rw s
          (own, put-IsAbsent k h (λ es. es ++ (e ∷ [])) grouped other a, put-IsTidy h e grouped n t)
  ]

  pub collect-IsTidy :
      (events : List (TriggeredOrder D)) (grouped : HashMap Text (List (TriggeredOrder D)))
      → IsTidy grouped
      → IsTidy (collect events grouped)
  collect-IsTidy [] grouped t = t
  collect-IsTidy (e ∷ events) grouped t = elim (Option-cases e.group) [
    | inl n ↦ simp n (collect-IsTidy events grouped t)
    | inr (h, n) ↦
        let put = entry_or h [] (λ es. es ++ (e ∷ [])) grouped in
        simp n (collect-IsTidy events put (put-IsTidy h e grouped n t))
  ]

  -- of each group the best of its events is resolved
  pub resolved-best :
      (g : Text) (events : List (TriggeredOrder D))
      → of_group g (ungrouped events ++ best_events (collect events [])) ≡ best (of_group g events)
  resolved-best g events =
      of_group-append g (ungrouped events) (best_events (collect events []))
      ∙ ap (λ x. x ++ of_group g (best_events (collect events []))) (of_group-ungrouped g events)
      ∙ of_group-best_events g (collect events []) (collect-IsTidy events [] tt)
      ∙ ap best (found-collect g events [])
