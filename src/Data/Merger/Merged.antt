-- ===== src/Data/Merger/Merged.antt =====
-- The merged stream: complete, at its end after finitely many items, and in the order of time.
use tesser.Prelude.{ℕ, zero, suc, ◌≤◌, ◌<◌, ◌≡◌, refl, sym, ◌∙◌, ap, some, List, [], ◌∷◌, arith}
use tesser.Prelude.Result.{Result, ok, err}
use tesser.Core.Types.{Text, Time, Tick}
use tesser.Core.Book.{OrderBook, DepthUpdate}
use tesser.Data.Merger.{
  UnifiedEvent, UnifiedEventKind, order_book, depth_update, trade, UnifiedEventStream, Answer,
  event, finished, failed, panicked, next_event, into_stream,
}
use tesser.Data.Merger.Feeds.{IsFrom, IsOrdered}
use tesser.Data.Merger.Ready.{
  weight, AllFrom, AllOrdered, ticks_left, books_left, depths_left, stamp,
}
use tesser.Data.Merger.Step.{Rows, Stepped, next_event-Stepped}

module _ {D : Type 0} where
  abbrev kind_ticks : UnifiedEventKind D → List (Tick D) → List (Tick D)
  kind_ticks (trade t) rest = t ∷ rest
  kind_ticks _ rest = rest

  abbrev kind_books : UnifiedEventKind D → List (OrderBook D) → List (OrderBook D)
  kind_books (order_book b) rest = b ∷ rest
  kind_books _ rest = rest

  abbrev kind_depths : UnifiedEventKind D → List (DepthUpdate D) → List (DepthUpdate D)
  kind_depths (depth_update u) rest = u ∷ rest
  kind_depths _ rest = rest

  -- the rows of each source among the items, in the order in which they come
  abbrev pub ticks_in : List (Result Text (UnifiedEvent D)) → List (Tick D)
  ticks_in [] = []
  ticks_in (err _ ∷ items) = ticks_in items
  ticks_in (ok e ∷ items) = kind_ticks e.kind (ticks_in items)

  abbrev pub books_in : List (Result Text (UnifiedEvent D)) → List (OrderBook D)
  books_in [] = []
  books_in (err _ ∷ items) = books_in items
  books_in (ok e ∷ items) = kind_books e.kind (books_in items)

  abbrev pub depths_in : List (Result Text (UnifiedEvent D)) → List (DepthUpdate D)
  depths_in [] = []
  depths_in (err _ ∷ items) = depths_in items
  depths_in (ok e ∷ items) = kind_depths e.kind (depths_in items)

  abbrev pub Complete : UnifiedEventStream D → List (Result Text (UnifiedEvent D)) → Type 0
  Complete s items =
      (ticks_in items ≡ ticks_left s)
      × (books_in items ≡ books_left s)
      × (depths_in items ≡ depths_left s)

  abbrev Timely : UnifiedEventStream D → List (Result Text (UnifiedEvent D)) → Type 0
  Timely s items =
      (AllOrdered s → IsOrdered stamp items) × ((t : Time) → AllFrom t s → IsFrom stamp t items)

  Complete-event :
      (e : UnifiedEventKind D) (ts : Time) (s s' : UnifiedEventStream D)
      (items : List (Result Text (UnifiedEvent D)))
      → Rows e s s'
      → Complete s' items
      → Complete s (ok (record { timestamp = ts; kind = e }) ∷ items)
  Complete-event (trade t) ts s s' items (a, b, c) (x, y, z) =
      (ap (λ r. t ∷ r) x ∙ sym a, y ∙ sym b, z ∙ sym c)
  Complete-event (order_book o) ts s s' items (a, b, c) (x, y, z) =
      (x ∙ sym a, ap (λ r. o ∷ r) y ∙ sym b, z ∙ sym c)
  Complete-event (depth_update u) ts s s' items (a, b, c) (x, y, z) =
      (x ∙ sym a, y ∙ sym b, ap (λ r. u ∷ r) z ∙ sym c)

  abbrev Merged : ℕ → UnifiedEventStream D → Type 0
  Merged fuel s =
      (items : List (Result Text (UnifiedEvent D))) × (into_stream fuel s ≡ some items)
      × Complete s items
      × Timely s items

  -- by the answer of the first call
  Stepped-Merged :
      (fuel : ℕ) (s s' : UnifiedEventStream D) (a : Answer D)
      → next_event s ≡ (s', a)
      → Stepped s s' a
      → (suc (weight s') ≤ weight s → Merged fuel s')
      → Merged (suc fuel) s
  unfolding into_stream
  Stepped-Merged fuel s s' (event e) n step later =
      let (items, run, complete, (ordered, from)) = later step.lighter in
      (
        ok e ∷ items,
        ground (arith, n, run),
        Complete-event e.kind e.timestamp s s' items step.rows complete,
        (
          (λ o. let (o', f) = step.ordered o in (from e.timestamp f, ordered o')),
          (λ t h. let (least, h') = step.from t h in (least, from t h')),
        ),
      )
  Stepped-Merged fuel s s' (failed x) n step later =
      let (items, run, (a, b, c), (ordered, from)) = later step.lighter in
      let (k, l, m) = step.rows in
      (
        err x ∷ items,
        ground (arith, n, run),
        (a ∙ k, b ∙ l, c ∙ m),
        (λ o. ordered (step.ordered o), λ t h. from t (step.from t h)),
      )
  Stepped-Merged fuel s s' finished n (a, b, c) later =
      ([], ground (arith, n), (sym a, sym b, sym c), (λ o. tt, λ t h. tt))
  Stepped-Merged fuel s s' panicked n step later = absurd step

  into_stream-Merged : (fuel : ℕ) (s : UnifiedEventStream D) → weight s < fuel → Merged fuel s
  into_stream-Merged zero s h = absurd (omega arith)
  into_stream-Merged (suc fuel) s h =
      Stepped-Merged fuel s (next_event s).0 (next_event s).1 refl (next_event-Stepped s)
        λ lighter. into_stream-Merged fuel (next_event s).0 (omega (arith, h, lighter))

  -- With more fuel than there are rows and errors in the three sources, the merged stream ends without a
  -- panic. The ticks, the books and the depth updates among its items are those rows of each source that
  -- the filter of symbols lets through, all of them and in the order of the source.
  pub into_stream-Complete :
      (fuel : ℕ) (s : UnifiedEventStream D)
      → weight s < fuel
      → (items : List (Result Text (UnifiedEvent D))) × (into_stream fuel s ≡ some items)
        × Complete s items
  into_stream-Complete fuel s h =
      let (items, run, complete, _) = into_stream-Merged fuel s h in (items, run, complete)

  -- If each of the three sources is recorded in the order of time, with errors anywhere, the merged
  -- stream is in the order of time too, and it ends.
  pub into_stream_chronological :
      (fuel : ℕ) (s : UnifiedEventStream D)
      → weight s < fuel
      → AllOrdered s
      → (items : List (Result Text (UnifiedEvent D))) × (into_stream fuel s ≡ some items)
        × IsOrdered stamp items
  into_stream_chronological fuel s h o =
      let (items, run, _, timely) = into_stream-Merged fuel s h in (items, run, timely.0 o)
