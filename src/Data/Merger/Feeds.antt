-- ===== src/Data/Merger/Feeds.antt =====
-- One source of the merge: what it still holds, in which order.
use tesser.Prelude.{
  ℕ, suc, ◌≤◌, ◌≡◌, refl, inl, inr, Option, none, some, List, [], ◌∷◌, arith, if◌then◌else◌, length,
  Option-cases, Bool-cases,
}
use tesser.Prelude.Int.{◌≤ℤ◌}
use tesser.Prelude.Result.{Result, ok, err, Result-cases}
use tesser.Core.Ids.{Symbol}
use tesser.Core.Types.{Text, Time}
use tesser.Data.Merger.{Cursor, Feed, admits, seek, ensure}

module _ {A : Type 0} where
  abbrev pub rows_of : Option (Cursor A) → Cursor A
  rows_of none = []
  rows_of (some rows) = rows

  -- the row in front, and those behind it
  abbrev pub pending : Feed A → Cursor A
  pending f = elim f.peek [ none ↦ rows_of f.cursor | some a ↦ ok a ∷ rows_of f.cursor ]

  abbrev pub size : Feed A → ℕ
  size f = length (pending f)

  -- A feed without a row in front is at its end.
  abbrev pub IsReady : Feed A → Type 0
  IsReady f = elim f.peek [ none ↦ rows_of f.cursor ≡ [] | some a ↦ Unit ]

  -- An answer leaves the feed ready, and an error is taken from it.
  abbrev pub Answers : Feed A → Feed A → Result Text (Unit {0}) → Type 0
  Answers f f' (ok _) = (size f' ≤ size f) × IsReady f'
  Answers f f' (err _) = suc (size f') ≤ size f

  pub Answers-grow :
      (f g f' : Feed A) (r : Result Text (Unit {0}))
      → size f ≤ size g
      → Answers f f' r
      → Answers g f' r
  Answers-grow f g f' (ok _) h a = (omega (arith, a.0), a.1)
  Answers-grow f g f' (err _) h a = omega (arith, a)

module _ {A : Type 0} (time : A → Time) where
  -- No row is earlier than `t`.
  abbrev pub IsFrom : Time → Cursor A → Type 0
  IsFrom t [] = Unit
  IsFrom t (err e ∷ rows) = IsFrom t rows
  IsFrom t (ok a ∷ rows) = (t ≤ℤ time a) × IsFrom t rows

  -- The rows are recorded in the order of time, with errors anywhere between them.
  abbrev pub IsOrdered : Cursor A → Type 0
  IsOrdered [] = Unit
  IsOrdered (err e ∷ rows) = IsOrdered rows
  IsOrdered (ok a ∷ rows) = IsFrom (time a) rows × IsOrdered rows

  pub IsFrom-le : (t u : Time) (rows : Cursor A) → u ≤ℤ t → IsFrom t rows → IsFrom u rows
  IsFrom-le t u [] h a = tt
  IsFrom-le t u (err e ∷ rows) h a = IsFrom-le t u rows h a
  IsFrom-le t u (ok x ∷ rows) h (k, a) = (omega arith, IsFrom-le t u rows h a)

  -- A time is at most that of the row in front, if there is one.
  abbrev pub NotAfter : Time → Option A → Type 0
  NotAfter t none = Unit
  NotAfter t (some a) = t ≤ℤ time a

  -- A feed in order holds nothing earlier than a time that its row in front is not before.
  pub IsFrom-front :
      (t : Time) (f : Feed A)
      → IsOrdered (pending f)
      → IsReady f
      → NotAfter t f.peek
      → IsFrom t (pending f)
  IsFrom-front t f o r h = elim (Option-cases f.peek) [
    | inl e ↦ ground (arith, e)
    | inr (a, e) ↦ ground (arith, e, IsFrom-le (time a) t (rows_of f.cursor))
  ]

  -- what is behind the row in front
  pub behind-IsOrdered :
      (f : Feed A) (a : A)
      → f.peek ≡ some a
      → IsOrdered (pending f)
      → IsFrom (time a) (rows_of f.cursor) × IsOrdered (rows_of f.cursor)
  behind-IsOrdered f a e o = ground (arith, e, o)

  pub behind-IsFrom :
      (f : Feed A) (a : A) (t : Time)
      → f.peek ≡ some a
      → IsFrom t (pending f)
      → (t ≤ℤ time a) × IsFrom t (rows_of f.cursor)
  behind-IsFrom f a t e h = ground (arith, e, h)

module _ {A : Type 0} (symbol : A → Symbol) (symbols : List Symbol) where
  -- the rows that the filter lets through
  abbrev pub admitted : Cursor A → List A
  admitted [] = []
  admitted (err e ∷ rows) = admitted rows
  admitted (ok a ∷ rows) =
      let later = admitted rows in if admits symbols (symbol a) then a ∷ later else later

  -- the rows that a feed still gives
  abbrev pub remaining : Feed A → List A
  remaining f = elim f.peek [
    | none ↦ admitted (rows_of f.cursor)
    | some a ↦ a ∷ admitted (rows_of f.cursor)
  ]

  -- a feed after `ensure`
  abbrev sought : Cursor A × Result Text (Option A) → Feed A
  sought (rest, err e) = record { cursor = some rest; peek = none }
  sought (rest, ok peek) = record { cursor = some rest; peek = peek }

  -- What `seek` keeps of the rows.
  pub record Keeps (time : A → Time) (f f' : Feed A) (r : Result Text (Unit {0})) : Type 0 where
    pub rows : remaining f' ≡ remaining f
    pub from : (t : Time) → IsFrom time t (pending f) → IsFrom time t (pending f')
    pub ordered : IsOrdered time (pending f) → IsOrdered time (pending f')
    pub after : Answers f f' r

  abbrev answer_of : Result Text (Option A) → Result Text (Unit {0})
  answer_of (err e) = err e
  answer_of (ok peek) = ok tt

  seek-Keeps :
      (time : A → Time) (rows : Cursor A)
      → Keeps time
          (record { cursor = some rows; peek = none })
          (sought (seek symbol symbols rows))
          (answer_of (seek symbol symbols rows).1)
  seek-Keeps time [] = record {
    rows = refl;
    from = λ t h. h;
    ordered = λ h. h;
    after = (omega arith, refl);
  }
  seek-Keeps time (err e ∷ rows) = record {
    rows = refl;
    from = λ t h. h;
    ordered = λ h. h;
    after = omega arith;
  }
  seek-Keeps time (ok a ∷ rows) =
      let later = seek-Keeps time rows in
      elim (Bool-cases (admits symbols (symbol a))) [
        | inl e ↦ rw e (record {
          rows = ground (arith, e);
          from = λ t h. h;
          ordered = λ h. h;
          after = (omega arith, tt);
        })
        | inr e ↦ rw e (record {
          rows = ground (arith, e, later.rows);
          from = λ t h. later.from t (h.1);
          ordered = λ h. later.ordered (h.1);
          after =
              Answers-grow (record { cursor = some rows; peek = none })
                (record { cursor = some (ok a ∷ rows); peek = none })
                (sought (seek symbol symbols rows)) (answer_of (seek symbol symbols rows).1)
                (omega arith) later.after;
        })
      ]

  ensure-seek :
      (rows : Cursor A)
      → ensure symbol symbols (record { cursor = some rows; peek = none })
        ≡ (sought (seek symbol symbols rows), answer_of (seek symbol symbols rows).1)
  unfolding ensure
  ensure-seek rows = elim (Result-cases (seek symbol symbols rows).1) [
    | inl (peek, e) ↦ ground (arith, e)
    | inr (x, e) ↦ ground (arith, e)
  ]

  ensure-some :
      (time : A → Time) (rows : Cursor A)
      → (let f : Feed A = record { cursor = some rows; peek = none } in
          Keeps time f (ensure symbol symbols f).0 (ensure symbol symbols f).1)
  ensure-some time rows = rw (ensure-seek rows) (seek-Keeps time rows)

  ensure-at :
      (time : A → Time) (cursor : Option (Cursor A)) (peek : Option A)
      → (let f : Feed A = record { cursor = cursor; peek = peek } in
          Keeps time f (ensure symbol symbols f).0 (ensure symbol symbols f).1)
  unfolding ensure
  ensure-at time cursor (some a) = record {
    rows = refl;
    from = λ t h. h;
    ordered = λ h. h;
    after = (omega arith, tt);
  }
  ensure-at time none none = record {
    rows = refl;
    from = λ t h. h;
    ordered = λ h. h;
    after = (omega arith, refl);
  }
  ensure-at time (some rows) none = ensure-some time rows

  pub ensure-Keeps :
      (time : A → Time) (f : Feed A)
      → Keeps time f (ensure symbol symbols f).0 (ensure symbol symbols f).1
  ensure-Keeps time f = ensure-at time f.cursor f.peek
