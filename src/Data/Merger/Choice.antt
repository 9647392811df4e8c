-- ===== src/Data/Merger/Choice.antt =====
-- The source that is chosen has the earliest row in front.
use tesser.Prelude.{◌≡◌, refl, inl, inr, Option, none, some, arith, Bool-cases}
use tesser.Prelude.Int.{◌≤ℤ◌, ltb_ℤ}
use tesser.Core.Types.{Time, Tick}
use tesser.Core.Book.{OrderBook, DepthUpdate}
use tesser.Data.Merger.{
  Source, tick, book, depth, UnifiedEventStream, candidate, consider, pick_candidate, tick_time,
  book_time, depth_time,
}
use tesser.Data.Merger.Feeds.{NotAfter}

-- by which of two candidates is chosen
pick_by :
    (P : Option (Time × Source) → Type 0) (x y : Time) (a b : Source)
    → (y ≤ℤ x → P (some (y, b)))
    → (x ≤ℤ y → P (some (x, a)))
    → P (pick_candidate (some (x, a)) y b)
unfolding pick_candidate
pick_by P x y a b f g = elim (Bool-cases (ltb_ℤ y x)) [
  | inl e ↦ rw e (f (ground (arith, e)))
  | inr e ↦ rw e (g (ground (arith, e)))
]

not_after :
    {A : Type 0} (time : A → Time) (ts : Time) {p : Option A} (q : Option A)
    → p ≡ q
    → NotAfter time ts q
    → NotAfter time ts p
not_after time ts q e h = rw e h

module _ {D : Type 0} where
  -- the chosen source has a row in front, of the chosen time
  abbrev pub IsFront : UnifiedEventStream D → Time → Source → Type 0
  IsFront s ts tick = (t : Tick D) × (s.ticks.peek ≡ some t) × (ts ≡ t.exchange_timestamp)
  IsFront s ts book = (b : OrderBook D) × (s.books.peek ≡ some b) × (ts ≡ b.timestamp)
  IsFront s ts depth = (u : DepthUpdate D) × (s.depths.peek ≡ some u) × (ts ≡ u.timestamp)

  -- the chosen source is at the front, and no row in front is earlier
  abbrev pub Chosen : UnifiedEventStream D → Option (Time × Source) → Type 0
  Chosen s none = (s.ticks.peek ≡ none) × (s.books.peek ≡ none) × (s.depths.peek ≡ none)
  Chosen s (some (ts, source)) =
      IsFront s ts source
      × NotAfter tick_time ts s.ticks.peek
      × NotAfter book_time ts s.books.peek
      × NotAfter depth_time ts s.depths.peek

  -- the rows in front, where the first and the second of them were compared
  front-Chosen :
      (s : UnifiedEventStream D) (t : Option (Tick D)) (b : Option (OrderBook D))
      (u : Option (DepthUpdate D)) (ts : Time) (source : Source)
      → s.ticks.peek ≡ t
      → s.books.peek ≡ b
      → s.depths.peek ≡ u
      → IsFront s ts source
      → NotAfter tick_time ts t
      → NotAfter book_time ts b
      → NotAfter depth_time ts u
      → Chosen s (some (ts, source))
  front-Chosen s t b u ts source e e' e'' f h h' h'' = (
    f,
    not_after tick_time ts t e h,
    not_after book_time ts b e' h',
    not_after depth_time ts u e'' h'',
  )

  consider-Chosen :
      (s : UnifiedEventStream D) (t : Option (Tick D)) (b : Option (OrderBook D))
      (u : Option (DepthUpdate D))
      → s.ticks.peek ≡ t
      → s.books.peek ≡ b
      → s.depths.peek ≡ u
      → Chosen s
          (consider depth_time depth u (consider book_time book b (consider tick_time tick t none)))
  unfolding pick_candidate
  consider-Chosen s none none none e e' e'' = (e, e', e'')
  consider-Chosen s (some t) none none e e' e'' =
      front-Chosen s (some t) none none (tick_time t) tick e e' e'' (t, e, refl) (omega arith) tt tt
  consider-Chosen s none (some b) none e e' e'' =
      front-Chosen s none (some b) none (book_time b) book e e' e'' (b, e', refl) tt (omega arith)
        tt
  consider-Chosen s none none (some u) e e' e'' =
      front-Chosen s none none (some u) (depth_time u) depth e e' e'' (u, e'', refl) tt tt
        (omega arith)
  consider-Chosen s (some t) (some b) none e e' e'' =
      pick_by (λ c. Chosen s c) (tick_time t) (book_time b) tick book
        (λ h.
          front-Chosen s (some t) (some b) none (book_time b) book e e' e'' (b, e', refl)
            (omega arith) (omega arith) tt)
        (λ h.
          front-Chosen s (some t) (some b) none (tick_time t) tick e e' e'' (t, e, refl)
            (omega arith) (omega arith) tt)
  consider-Chosen s (some t) none (some u) e e' e'' =
      pick_by (λ c. Chosen s c) (tick_time t) (depth_time u) tick depth
        (λ h.
          front-Chosen s (some t) none (some u) (depth_time u) depth e e' e'' (u, e'', refl)
            (omega arith) tt (omega arith))
        (λ h.
          front-Chosen s (some t) none (some u) (tick_time t) tick e e' e'' (t, e, refl)
            (omega arith) tt (omega arith))
  consider-Chosen s none (some b) (some u) e e' e'' =
      pick_by (λ c. Chosen s c) (book_time b) (depth_time u) book depth
        (λ h.
          front-Chosen s none (some b) (some u) (depth_time u) depth e e' e'' (u, e'', refl) tt
            (omega arith) (omega arith))
        (λ h.
          front-Chosen s none (some b) (some u) (book_time b) book e e' e'' (b, e', refl) tt
            (omega arith) (omega arith))
  consider-Chosen s (some t) (some b) (some u) e e' e'' =
      pick_by (λ c. Chosen s (consider depth_time depth (some u) c)) (tick_time t) (book_time b)
        tick book
        (λ h.
          pick_by (λ c. Chosen s c) (book_time b) (depth_time u) book depth
            (λ hx.
              front-Chosen s (some t) (some b) (some u) (depth_time u) depth e e' e'' (u, e'', refl)
                (omega arith) (omega arith) (omega arith))
            (λ hx.
              front-Chosen s (some t) (some b) (some u) (book_time b) book e e' e'' (b, e', refl)
                (omega arith) (omega arith) (omega arith)))
        (λ h.
          pick_by (λ c. Chosen s c) (tick_time t) (depth_time u) tick depth
            (λ hx.
              front-Chosen s (some t) (some b) (some u) (depth_time u) depth e e' e'' (u, e'', refl)
                (omega arith) (omega arith) (omega arith))
            (λ hx.
              front-Chosen s (some t) (some b) (some u) (tick_time t) tick e e' e'' (t, e, refl)
                (omega arith) (omega arith) (omega arith)))

  pub candidate-Chosen : (s : UnifiedEventStream D) → Chosen s (candidate s)
  unfolding candidate
  candidate-Chosen s = consider-Chosen s s.ticks.peek s.books.peek s.depths.peek refl refl refl
