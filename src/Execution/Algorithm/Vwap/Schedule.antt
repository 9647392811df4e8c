-- ===== src/Execution/Algorithm/Vwap/Schedule.antt =====
-- What a volume-weighted order asks for on a tick, and when it is over.
use tesser.Prelude.{
  ℕ, ◌+◌, ◌%◌, ◌^◌, ◌≡◌, refl, Bool, true, false, not, ◌&&◌, none, some, List, [], ◌∷◌, arith,
  if◌then◌else◌, Option-cases, sym, ap, ◌∙◌, inl, inr,
}
use tesser.Prelude.Int.{leb_ℤ, ◌<ℤ◌, eq_of_parts, pos, ◌-ℤ◌}
use tesser.Decimal.{Decimal, nought, ◌⊕◌, ◌⊖◌, ◌⊗◌, ◌≤?◌, units, max, min}
use tesser.Decimal.Laws.{IsExact}
use tesser.Decimal.Parts.{IsPos, ◌≼◌, ◌≺◌, nought_parts, add_parts, sub_parts}
use tesser.Core.Types.{Text, Uuid, Time, Tick}
use tesser.Execution.Algorithm.{working, ChildOrderRequest, AlgoStatus-cases}
use tesser.Execution.Algorithm.Iceberg.Bounds.{placed}
use tesser.Execution.Algorithm.Vwap.{
  VwapState, schedule_target, participate, progress, num_milliseconds, observe, build_market_child,
  work_tick, on_tick,
}

module _ {D : Type 0} ⦃d : Decimal D⦄ where
  -- A quantity is within the share of the observed volume that the order may take.
  abbrev pub Participates : D → VwapState D → Type 0
  Participates q s = elim s.participation_rate [
    | none ↦ Unit
    | some rate ↦ q ≼ (s.observed_volume ⊗ max rate nought)
  ]

  -- The window lasts a millisecond at least.
  abbrev pub IsWindow : VwapState D → Type 0
  IsWindow s = pos 0 <ℤ num_milliseconds (s.end_time -ℤ s.start_time)

  min_bounds : (a b : D) → (min a b ≼ a) × (min a b ≼ b)
  min_bounds a b = ground arith

  participate-Participates :
      (t : D) (s : VwapState D) → Participates (min (participate t s) s.total_quantity) s
  participate-Participates t s = elim (Option-cases s.participation_rate) [
    | inl e ↦ ground (arith, e)
    | inr (rate, e) ↦ ground (
      arith,
      e,
      min_bounds t (s.observed_volume ⊗ max rate nought),
      min_bounds (participate t s) s.total_quantity,
    )
  ]

  Participates-units :
      (s : VwapState D) (a b : D) → Participates b s → units a ≡ units b → Participates a s
  Participates-units s a b p e = ground (arith, p, e)

  -- by whether the window is empty
  clipped :
      (empty : Bool) (t : D) (s : VwapState D)
      → (let target = if empty then s.total_quantity else min (participate t s) s.total_quantity in
          (target ≼ s.total_quantity) × (empty ≡ false → Participates target s))
  clipped true t s = (omega arith, λ e. absurd (cc e))
  clipped false t s =
      ((min_bounds (participate t s) s.total_quantity).1, λ e. participate-Participates t s)

  -- The target is at most the total and, unless the window is empty, at most the share of the volume.
  target_bounds :
      (now : Time) (s : VwapState D)
      → (schedule_target now s ≼ s.total_quantity)
        × (IsWindow s → Participates (schedule_target now s) s)
  unfolding schedule_target
  target_bounds now s =
      let empty = leb_ℤ (num_milliseconds (s.end_time -ℤ s.start_time)) (pos 0) in
      let (total, share) = clipped empty (s.total_quantity ⊗ progress now s) s in
      (total, λ w. share (ground arith))

module _ {D : Type 0} ⦃d : Decimal D⦄ (show : Uuid → Text) where
  -- What `on_tick` guarantees of an order that it asks for, with the state that observed the tick.
  abbrev pub Scheduled : Time → VwapState D → VwapState D × List (ChildOrderRequest D) → Type 0
  Scheduled now s (s', []) = s' ≡ s
  Scheduled now s (s', c ∷ []) =
      (s.status ≡ working)
      × (s' ≡ record s { next_child_seq = (s.next_child_seq + 1) % 2 ^ 32 })
      × IsPos (placed c.action)
      × (s.min_slice ≺ placed c.action)
      × (units (s.filled_quantity ⊕ placed c.action) ≡ units (schedule_target now s))
      × ((s.filled_quantity ⊕ placed c.action) ≼ s.total_quantity)
      × (IsWindow s → Participates (s.filled_quantity ⊕ placed c.action) s)
  Scheduled now s (s', c ∷ c' ∷ cs) = ⊥

  module _ (laws : IsExact D) where
    work_tick-Scheduled :
        (now : Time) (s : VwapState D) → s.status ≡ working → Scheduled now s (work_tick show now s)
    unfolding work_tick build_market_child
    work_tick-Scheduled now s h =
        let target = schedule_target now s in
        let (total, share) = target_bounds now s in
        let qty = min (target ⊖ s.filled_quantity) (s.total_quantity ⊖ s.filled_quantity) in
        ground (
          arith,
          h,
          total,
          nought_parts laws,
          sub_parts laws target s.filled_quantity,
          sub_parts laws s.total_quantity s.filled_quantity,
          add_parts laws s.filled_quantity qty,
          eq_of_parts (units (s.filled_quantity ⊕ qty)) (units target),
          λ (w : IsWindow s). Participates-units s (s.filled_quantity ⊕ qty) target (share w),
        )

    pub on_tick_schedules :
        (now : Time) (t : Tick D) (s : VwapState D)
        → Scheduled now (observe t s) (on_tick show now t s)
    unfolding on_tick
    on_tick_schedules now t s = elim (AlgoStatus-cases s.status) [
      | inl e ↦ ground (arith, e, work_tick-Scheduled now (observe t s) e)
      | inr e ↦ ground (arith, e)
    ]

  target_again :
      (now : Time) (t u : Tick D) (n : ℕ) (s : VwapState D)
      → s.participation_rate ≡ none
      → schedule_target now (observe u (record (observe t s) { next_child_seq = n }))
        ≡ schedule_target now (observe t s)
  unfolding schedule_target
  target_again now t u n s e = ground (arith, e)

  -- whether a working order asks for a child, by its target
  abbrev asks_at : D → VwapState D → Bool
  asks_at target s =
      let deficit = target ⊖ s.filled_quantity in
      not (deficit ≤? s.min_slice)
      && not (min deficit (s.total_quantity ⊖ s.filled_quantity) ≤? nought)

  abbrev quantity_at : D → VwapState D → D
  quantity_at target s = min (target ⊖ s.filled_quantity) (s.total_quantity ⊖ s.filled_quantity)

  work_tick-by :
      (now : Time) (s : VwapState D)
      → work_tick show now s ≡ (
          let (s', child) = build_market_child show (quantity_at (schedule_target now s) s) s in
          if asks_at (schedule_target now s) s then (s', child ∷ []) else (s, []))
  unfolding work_tick
  work_tick-by now s = ground arith

  if-asks :
      (b : Bool) (y : VwapState D) {x z : VwapState D} {c c' : ChildOrderRequest D}
      → (let asked : VwapState D × List (ChildOrderRequest D) = (z, c' ∷ []) in
          (if b then (x, c ∷ []) else (y, [])) ≡ asked)
      → (b ≡ true) × (z ≡ x) × (c' ≡ c)
  if-asks true y e = (refl, cc e, cc e)
  if-asks false y e = absurd (cc e)

  on_tick-asks :
      (now : Time) (t : Tick D) (s : VwapState D) {s' : VwapState D} {c : ChildOrderRequest D}
      → on_tick show now t s ≡ (s', c ∷ [])
      → (s.status ≡ working) × (work_tick show now (observe t s) ≡ (s', c ∷ []))
  unfolding on_tick
  on_tick-asks now t s e = ground (arith, e)

  child-quantity : (q : D) (s : VwapState D) → placed (build_market_child show q s).1.action ≡ q
  unfolding build_market_child
  child-quantity q s = refl

  -- the tick after the one that asked
  asks-again :
      (now : Time) (t u : Tick D) (s : VwapState D)
      → s.participation_rate ≡ none
      → s.status ≡ working
      → (let q = quantity_at (schedule_target now (observe t s)) (observe t s) in
          asks_at (schedule_target now (observe t s)) (observe t s) ≡ true
          → (let second = observe u (build_market_child show q (observe t s)).0 in
              let (s'', child) = build_market_child show q second in
              on_tick show now u (build_market_child show q (observe t s)).0 ≡ (s'', child ∷ [])))
  unfolding on_tick build_market_child
  asks-again now t u s e works asks =
      let n = (s.next_child_seq + 1) % 2 ^ 32 in
      let second = observe u (record (observe t s) { next_child_seq = n }) in
      ground (arith, works, asks, target_again now t u n s e, work_tick-by now second)

  -- What is asked for but not yet filled is not counted: an order without a participation rate that asks
  -- for a child on one tick asks for another of the same quantity on the next tick at the same reading of
  -- the clock, if no fill comes between the two.
  pub on_tick_repeats :
      (now : Time) (t u : Tick D) (s : VwapState D) {s' : VwapState D} {c : ChildOrderRequest D}
      → s.participation_rate ≡ none
      → on_tick show now t s ≡ (s', c ∷ [])
      → (s'' : VwapState D) × (c' : ChildOrderRequest D) × (on_tick show now u s' ≡ (s'', c' ∷ []))
        × (placed c'.action ≡ placed c.action)
  on_tick_repeats now t u s {s' = s'} {c = c} e asked =
      let before = observe t s in
      let target = schedule_target now before in
      let q = quantity_at target before in
      let (works, worked) = on_tick-asks now t s asked in
      let (asks, first, child) =
        if-asks (asks_at target before) before (sym (work_tick-by now before) ∙ worked) in
      let after = observe u (build_market_child show q before).0 in
      let again = build_market_child show q after in
      (
        again.0,
        again.1,
        ap (λ x. on_tick show now u x) first ∙ asks-again now t u s e works asks,
        child-quantity q after
            ∙ sym (child-quantity q before)
            ∙ ap (λ x. placed x.action) (sym child),
      )
