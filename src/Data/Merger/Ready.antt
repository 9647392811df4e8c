-- ===== src/Data/Merger/Ready.antt =====
-- What the three sources hold, and what making each ready keeps of it.
use tesser.Prelude.{ℕ, suc, ◌+◌, ◌≤◌, ◌≡◌, refl, List, arith}
use tesser.Prelude.Result.{Result, ok, err}
use tesser.Core.Types.{Text, Time, Tick}
use tesser.Core.Book.{OrderBook, DepthUpdate}
use tesser.Data.Merger.{
  UnifiedEvent, UnifiedEventStream, Feed, ensure, ensure_all, in_turn, tick_symbol, book_symbol,
  depth_symbol, tick_time, book_time, depth_time,
}
use tesser.Data.Merger.Feeds.{
  pending, size, IsReady, IsFrom, IsOrdered, remaining, Keeps, ensure-Keeps,
}

module _ {D : Type 0} where
  abbrev pub stamp : UnifiedEvent D → Time
  stamp e = e.timestamp

  -- all that the three sources hold
  abbrev pub weight : UnifiedEventStream D → ℕ
  weight s = size s.ticks + size s.books + size s.depths

  abbrev pub AllFrom : Time → UnifiedEventStream D → Type 0
  AllFrom t s =
      IsFrom tick_time t (pending s.ticks)
      × IsFrom book_time t (pending s.books)
      × IsFrom depth_time t (pending s.depths)

  -- Each of the three sources is recorded in the order of time.
  abbrev pub AllOrdered : UnifiedEventStream D → Type 0
  AllOrdered s =
      IsOrdered tick_time (pending s.ticks)
      × IsOrdered book_time (pending s.books)
      × IsOrdered depth_time (pending s.depths)

  abbrev pub AllReady : UnifiedEventStream D → Type 0
  AllReady s = IsReady s.ticks × IsReady s.books × IsReady s.depths

  abbrev pub ticks_left : UnifiedEventStream D → List (Tick D)
  ticks_left s = remaining tick_symbol s.symbols s.ticks

  abbrev pub books_left : UnifiedEventStream D → List (OrderBook D)
  books_left s = remaining book_symbol s.symbols s.books

  abbrev pub depths_left : UnifiedEventStream D → List (DepthUpdate D)
  depths_left s = remaining depth_symbol s.symbols s.depths

  abbrev pub SameRows : UnifiedEventStream D → UnifiedEventStream D → Type 0
  SameRows s s' =
      (ticks_left s' ≡ ticks_left s)
      × (books_left s' ≡ books_left s)
      × (depths_left s' ≡ depths_left s)

  abbrev pub Lighter : UnifiedEventStream D → UnifiedEventStream D → Result Text (Unit {0}) → Type 0
  Lighter s s' (ok _) = (weight s' ≤ weight s) × AllReady s'
  Lighter s s' (err _) = suc (weight s') ≤ weight s

  pub record Ensured (s s' : UnifiedEventStream D) (r : Result Text (Unit {0})) : Type 0 where
    pub rows : SameRows s s'
    pub from : (t : Time) → AllFrom t s → AllFrom t s'
    pub ordered : AllOrdered s → AllOrdered s'
    pub lighter : Lighter s s' r

  in_turn-Ensured :
      (s : UnifiedEventStream D) (ticks : Feed (Tick D)) (books : Feed (OrderBook D))
      (depths : Feed (DepthUpdate D)) (r r₁ r₂ : Result Text (Unit {0}))
      → Keeps tick_symbol s.symbols tick_time s.ticks ticks r
      → Keeps book_symbol s.symbols book_time s.books books r₁
      → Keeps depth_symbol s.symbols depth_time s.depths depths r₂
      → (let out = in_turn s (ticks, r) (books, r₁) (depths, r₂) in Ensured s out.0 out.1)
  in_turn-Ensured s ticks books depths (err _) r₁ r₂ k l m = record {
    rows = (k.rows, refl, refl);
    from = λ t h. (k.from t h.0, h.1, h.2);
    ordered = λ h. (k.ordered h.0, h.1, h.2);
    lighter = omega (arith, k.after);
  }
  in_turn-Ensured s ticks books depths (ok _) (err _) r₂ k l m = record {
    rows = (k.rows, l.rows, refl);
    from = λ t (h, h₁, h₂). (k.from t h, l.from t h₁, h₂);
    ordered = λ (h, h₁, h₂). (k.ordered h, l.ordered h₁, h₂);
    lighter = omega (arith, k.after, l.after);
  }
  in_turn-Ensured s ticks books depths (ok _) (ok _) (err _) k l m = record {
    rows = (k.rows, l.rows, m.rows);
    from = λ t (h, h₁, h₂). (k.from t h, l.from t h₁, m.from t h₂);
    ordered = λ (h, h₁, h₂). (k.ordered h, l.ordered h₁, m.ordered h₂);
    lighter = omega (arith, k.after, l.after, m.after);
  }
  in_turn-Ensured s ticks books depths (ok _) (ok _) (ok _) k l m = record {
    rows = (k.rows, l.rows, m.rows);
    from = λ t (h, h₁, h₂). (k.from t h, l.from t h₁, m.from t h₂);
    ordered = λ (h, h₁, h₂). (k.ordered h, l.ordered h₁, m.ordered h₂);
    lighter = (omega (arith, k.after, l.after, m.after), (k.after.1, l.after.1, m.after.1));
  }

  pub ensure_all-Ensured : (s : UnifiedEventStream D) → Ensured s (ensure_all s).0 (ensure_all s).1
  unfolding ensure_all
  ensure_all-Ensured s =
      let ticks = ensure tick_symbol s.symbols s.ticks in
      let books = ensure book_symbol s.symbols s.books in
      let depths = ensure depth_symbol s.symbols s.depths in
      in_turn-Ensured s ticks.0 books.0 depths.0 ticks.1 books.1 depths.1
        (ensure-Keeps tick_symbol s.symbols tick_time s.ticks)
        (ensure-Keeps book_symbol s.symbols book_time s.books)
        (ensure-Keeps depth_symbol s.symbols depth_time s.depths)
