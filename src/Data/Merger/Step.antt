-- ===== src/Data/Merger/Step.antt =====
-- What a call of `next_event` takes from the three sources.
use tesser.Prelude.{suc, ◌≤◌, ◌≡◌, sym, ◌∙◌, inl, inr, none, some, [], ◌∷◌, arith, Option-cases}
use Prim.Derive.{subst}
use tesser.Prelude.Int.{◌≤ℤ◌}
use tesser.Prelude.Result.{ok, err, Result-cases}
use tesser.Core.Types.{Text, Time}
use tesser.Data.Merger.{
  Source, tick, book, depth, UnifiedEvent, UnifiedEventKind, order_book, depth_update, trade,
  UnifiedEventStream, ensure_all, candidate, take_event, tick_time, book_time, depth_time, Answer,
  event, finished, failed, panicked, next_event,
}
use tesser.Data.Merger.Feeds.{IsFrom-front, behind-IsOrdered, behind-IsFrom}
use tesser.Data.Merger.Ready.{
  weight, AllFrom, AllOrdered, AllReady, ticks_left, books_left, depths_left, SameRows, Ensured,
  ensure_all-Ensured,
}
use tesser.Data.Merger.Choice.{Chosen, candidate-Chosen}

module _ {D : Type 0} where
  -- What a row that is taken leaves of each source.
  abbrev pub Rows : UnifiedEventKind D → UnifiedEventStream D → UnifiedEventStream D → Type 0
  Rows (trade t) s s' =
      (ticks_left s ≡ t ∷ ticks_left s')
      × (books_left s ≡ books_left s')
      × (depths_left s ≡ depths_left s')
  Rows (order_book b) s s' =
      (ticks_left s ≡ ticks_left s')
      × (books_left s ≡ b ∷ books_left s')
      × (depths_left s ≡ depths_left s')
  Rows (depth_update u) s s' =
      (ticks_left s ≡ ticks_left s')
      × (books_left s ≡ books_left s')
      × (depths_left s ≡ u ∷ depths_left s')

  Rows-after :
      (kind : UnifiedEventKind D) (s ready s' : UnifiedEventStream D)
      → SameRows s ready
      → Rows kind ready s'
      → Rows kind s s'
  Rows-after (trade t) s ready s' (a, b, c) (x, y, z) = (sym a ∙ x, sym b ∙ y, sym c ∙ z)
  Rows-after (order_book o) s ready s' (a, b, c) (x, y, z) = (sym a ∙ x, sym b ∙ y, sym c ∙ z)
  Rows-after (depth_update u) s ready s' (a, b, c) (x, y, z) = (sym a ∙ x, sym b ∙ y, sym c ∙ z)

  pub record Emitted (e : UnifiedEvent D) (s s' : UnifiedEventStream D) : Type 0 where
    pub lighter : suc (weight s') ≤ weight s
    pub rows : Rows e.kind s s'
    pub ordered : AllOrdered s → AllOrdered s' × AllFrom e.timestamp s'
    pub from : (t : Time) → AllFrom t s → (t ≤ℤ e.timestamp) × AllFrom t s'

  take-Emitted :
      (s : UnifiedEventStream D) (ts : Time) (source : Source)
      → AllReady s
      → Chosen s (some (ts, source))
      → (e : UnifiedEvent D) × (s' : UnifiedEventStream D) × (take_event source s ≡ some (e, s'))
        × Emitted e s s'
  unfolding take_event
  take-Emitted s ts tick (r, r', r'') ((t, front, same), low, low', low'') = (
    record { timestamp = t.exchange_timestamp; kind = trade t },
    record s { ticks = record s.ticks { peek = none } },
    ground (arith, front),
    record {
      lighter = ground (arith, front);
      rows = ground (arith, front);
      ordered = λ (o, o', o'').
          let (later, ordered') = behind-IsOrdered tick_time s.ticks t front o in
          (
            (ordered', o', o''),
            (
              later,
              rw (← same) (IsFrom-front book_time ts s.books o' r' low'),
              rw (← same) (IsFrom-front depth_time ts s.depths o'' r'' low''),
            ),
          );
      from = λ x (h, h', h'').
          let (least, rest) = behind-IsFrom tick_time s.ticks t x front h in
          (least, (rest, h', h''));
    },
  )
  take-Emitted s ts book (r, r', r'') ((b, front, same), low, low', low'') = (
    record { timestamp = b.timestamp; kind = order_book b },
    record s { books = record s.books { peek = none } },
    ground (arith, front),
    record {
      lighter = ground (arith, front);
      rows = ground (arith, front);
      ordered = λ (o, o', o'').
          let (later, ordered') = behind-IsOrdered book_time s.books b front o' in
          (
            (o, ordered', o''),
            (
              rw (← same) (IsFrom-front tick_time ts s.ticks o r low),
              later,
              rw (← same) (IsFrom-front depth_time ts s.depths o'' r'' low''),
            ),
          );
      from = λ x (h, h', h'').
          let (least, rest) = behind-IsFrom book_time s.books b x front h' in
          (least, (h, rest, h''));
    },
  )
  take-Emitted s ts depth (r, r', r'') ((u, front, same), low, low', low'') = (
    record { timestamp = u.timestamp; kind = depth_update u },
    record s { depths = record s.depths { peek = none } },
    ground (arith, front),
    record {
      lighter = ground (arith, front);
      rows = ground (arith, front);
      ordered = λ (o, o', o'').
          let (later, ordered') = behind-IsOrdered depth_time s.depths u front o'' in
          (
            (o, o', ordered'),
            (
              rw (← same) (IsFrom-front tick_time ts s.ticks o r low),
              rw (← same) (IsFrom-front book_time ts s.books o' r' low'),
              later,
            ),
          );
      from = λ x (h, h', h'').
          let (least, rest) = behind-IsFrom depth_time s.depths u x front h'' in
          (least, (h, h', rest));
    },
  )

  -- What a call of `next_event` does, by its answer.
  abbrev pub Stepped : UnifiedEventStream D → UnifiedEventStream D → Answer D → Type 0
  Stepped s s' (event e) = Emitted e s s'
  Stepped s s' (failed x) = Ensured s s' (err x)
  Stepped s s' finished = (ticks_left s ≡ []) × (books_left s ≡ []) × (depths_left s ≡ [])
  Stepped s s' panicked = ⊥

  Emitted-after :
      (e : UnifiedEvent D) (s ready s' : UnifiedEventStream D)
      → Ensured s ready (ok tt)
      → Emitted e ready s'
      → Emitted e s s'
  Emitted-after e s ready s' r m = record {
    lighter = omega (arith, r.lighter.0, m.lighter);
    rows = Rows-after e.kind s ready s' r.rows m.rows;
    ordered = λ o. m.ordered (r.ordered o);
    from = λ t h. m.from t (r.from t h);
  }

  Ready-empty :
      (s : UnifiedEventStream D)
      → AllReady s
      → Chosen s none
      → (ticks_left s ≡ []) × (books_left s ≡ []) × (depths_left s ≡ [])
  Ready-empty s (r, r', r'') (e, e', e'') =
      (ground (arith, e, r), ground (arith, e', r'), ground (arith, e'', r''))

  next_event-failed :
      (s : UnifiedEventStream D) {x : Text}
      → (ensure_all s).1 ≡ err x
      → next_event s ≡ ((ensure_all s).0, failed x)
  unfolding next_event
  next_event-failed s e = ground (arith, e)

  next_event-finished :
      (s : UnifiedEventStream D)
      → (ensure_all s).1 ≡ ok tt
      → candidate (ensure_all s).0 ≡ none
      → next_event s ≡ ((ensure_all s).0, finished)
  unfolding next_event
  next_event-finished s e c = ground (arith, e, c)

  next_event-event :
      (s : UnifiedEventStream D) {ts : Time} {source : Source} {e : UnifiedEvent D}
      {s' : UnifiedEventStream D}
      → (ensure_all s).1 ≡ ok tt
      → candidate (ensure_all s).0 ≡ some (ts, source)
      → take_event source (ensure_all s).0 ≡ some (e, s')
      → next_event s ≡ (s', event e)
  unfolding next_event
  next_event-event s r c t = ground (arith, r, c, t)

  pub next_event-Stepped : (s : UnifiedEventStream D) → Stepped s (next_event s).0 (next_event s).1
  next_event-Stepped s =
      let ready = (ensure_all s).0 in
      let ensured = ensure_all-Ensured s in
      let c = candidate-Chosen ready in
      elim (Result-cases (ensure_all s).1) [
        | inr (x, r) ↦
            let known : Ensured s ready (err x) = rw (← r) ensured in
            rw (next_event-failed s r) known
        | inl (_, r) ↦
            let known : Ensured s ready (ok tt) = rw (← r) ensured in
            elim (Option-cases (candidate ready)) [
              | inl n ↦
                  let (a, b, d) =
                    Ready-empty ready (known.lighter.1) (subst (λ x. Chosen ready x) n c) in
                  let (k, l, m) = known.rows in
                  rw (next_event-finished s r n) (sym k ∙ a, sym l ∙ b, sym m ∙ d)
              | inr ((ts, source), n) ↦
                  let (e, s', taken, emitted) =
                    take-Emitted ready ts source (known.lighter.1)
                      (subst (λ x. Chosen ready x) n c) in
                  rw (next_event-event s r n taken) (Emitted-after e s ready s' known emitted)
            ]
      ]
