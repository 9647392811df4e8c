-- ===== src/Execution/Algorithm/Twap/Slices.antt =====
-- How many slices a time-weighted order asks for, when, and how large they are.
use tesser.Prelude.{
  ℕ, ◌+◌, ◌-◌, ◌≤◌, ◌≡◌, ◌≢◌, ◌⊎◌, refl, zero, Bool, true, false, List, [], ◌∷◌, ◌++◌, arith,
  length, length-append, if◌then◌else◌, suc,
}
use tesser.Prelude.Int.{leb_ℤ, ◌≤ℤ◌, ◌<ℤ◌, ◌+ℤ◌}
use tesser.Decimal.{Decimal, ◌⊖◌, ◌≤?◌, units}
use tesser.Decimal.Laws.{IsExact}
use tesser.Decimal.Parts.{IsPos, ◌≼◌, nought_parts}
use tesser.Core.Types.{Text, Uuid, Time, Fill}
use tesser.Execution.Algorithm.{working, completed, ChildOrderRequest}
use tesser.Execution.Algorithm.Iceberg.Bounds.{placed}
use tesser.Execution.Algorithm.Twap.{
  TwapState, on_timer, on_fill, cancel, create_slice_order, check_completion, work_slice,
  execute_slice, should_execute_slice, calculate_slice_quantity,
}

pub data Event (D : Type 0) : Type 0 where
  timer : Time → Time → Time → Event D
  fill : Time → Fill D → Event D
  stop : Event D

module _ {D : Type 0} ⦃d : Decimal D⦄ (laws : IsExact D) where
  slice_fits :
      (s : TwapState D) (n : ℕ)
      → s.num_slices - s.executed_slices ≡ n
      → IsPos (calculate_slice_quantity s)
      → (calculate_slice_quantity s ≼ (s.total_quantity ⊖ s.filled_quantity))
        × ((s.executed_slices + 1 ≢ s.num_slices)
            ⊎ (units (calculate_slice_quantity s) ≡ units (s.total_quantity ⊖ s.filled_quantity)))
  unfolding calculate_slice_quantity
  slice_fits s zero e p = ground (arith, nought_parts laws)
  slice_fits s (suc zero) e p =
      let left = s.total_quantity ⊖ s.filled_quantity in
      ground (arith, nought_parts laws, laws.div_of_ℕ-le left 0, laws.div_of_one left)
  slice_fits s (suc (suc n)) e p =
      let left = s.total_quantity ⊖ s.filled_quantity in
      ground (arith, nought_parts laws, laws.div_of_ℕ-le left (suc n))

module _ {D : Type 0} ⦃d : Decimal D⦄ (show : Uuid → Text) where
  pub handle : Event D → TwapState D → TwapState D × List (ChildOrderRequest D)
  handle (timer first now later) s = on_timer show first now later s
  handle (fill now f) s = on_fill now f s
  handle stop s = (cancel s, [])

  -- the events in order, with all the requests that they lead to
  pub run : List (Event D) → TwapState D → TwapState D × List (ChildOrderRequest D)
  run [] s = (s, [])
  run (e ∷ es) s =
      let (s₁, asked) = handle e s in let (s₂, later) = run es s₁ in (s₂, asked ++ later)

  handle_counts :
      (e : Event D) (s : TwapState D)
      → s.executed_slices ≤ s.num_slices
      → ((handle e s).0.executed_slices ≡ s.executed_slices + length (handle e s).1)
        × ((handle e s).0.num_slices ≡ s.num_slices)
        × ((handle e s).0.executed_slices ≤ s.num_slices)
  unfolding handle on_timer on_fill cancel check_completion work_slice execute_slice
      should_execute_slice
  handle_counts (timer first now later) s h = ground arith
  handle_counts (fill now f) s h = ground arith
  handle_counts stop s h = ground arith

  -- Over any run of timers, fills and cancellations, with any readings of the clock, the slices counted
  -- as executed grow by one with each order that is asked for, and never exceed the number of slices.
  pub twap_slices :
      (es : List (Event D)) (s : TwapState D)
      → s.executed_slices ≤ s.num_slices
      → ((run es s).0.executed_slices ≡ s.executed_slices + length (run es s).1)
        × ((run es s).0.executed_slices ≤ s.num_slices)
  unfolding run
  twap_slices [] s h = (omega arith, h)
  twap_slices (e ∷ es) s h =
      let (grows, same, within) = handle_counts e s h in
      let s₁ = (handle e s).0 in
      let (later, bound) = twap_slices es s₁ (omega arith) in
      ground (arith, length-append (handle e s).1 (run es s₁).1)

  -- What `on_timer` guarantees of an order that it asks for.
  abbrev pub Sliced : Time → Time → TwapState D → TwapState D × List (ChildOrderRequest D) → Type 0
  Sliced now later s (s', []) = Unit
  Sliced now later s (s', c ∷ []) =
      (s.status ≡ working)
      × (s.next_slice_time ≤ℤ now)
      × (now <ℤ s.end_time)
      × (s'.executed_slices ≡ s.executed_slices + 1)
      × (s'.next_slice_time ≡ later +ℤ s.slice_interval)
      × IsPos (placed c.action)
      × (placed c.action ≼ (s.total_quantity ⊖ s.filled_quantity))
      × ((s.executed_slices + 1 ≢ s.num_slices)
          ⊎ (units (placed c.action) ≡ units (s.total_quantity ⊖ s.filled_quantity)))
  Sliced now later s (s', c ∷ c' ∷ cs) = ⊥

  module _ (laws : IsExact D) where
    work_slice-Sliced :
        (now later : Time) (s : TwapState D) → Sliced now later s (work_slice show now later s)
    unfolding work_slice execute_slice should_execute_slice create_slice_order
    work_slice-Sliced now later s =
        ground (arith, nought_parts laws, slice_fits laws s (s.num_slices - s.executed_slices) refl)

    -- by whether the time and whether the quantity is used up
    checked-Sliced :
        (expired done : Bool) (now later : Time) (s : TwapState D)
        → (let stopped = record s { status = completed } in
            Sliced now later s (
              work_slice show now later (if expired then stopped else if done then stopped else s)))
    checked-Sliced true done now later s = unfold work_slice in tt
    checked-Sliced false true now later s = unfold work_slice in tt
    checked-Sliced false false now later s = work_slice-Sliced now later s

    -- A timer asks for one order at most, and only while the order is worked, from the time of the next
    -- slice on and before the end. That order is above zero, at most what is left, and all of what is
    -- left if it is the last slice.
    pub on_timer_slices :
        (first now later : Time) (s : TwapState D)
        → Sliced now later s (on_timer show first now later s)
    unfolding on_timer check_completion
    on_timer_slices first now later s =
        checked-Sliced (leb_ℤ s.end_time first) (s.total_quantity ≤? s.filled_quantity) now later s
