-- ===== src/Data/Merger.antt =====
-- tesser-data/src/merger.rs: three recorded sources merged by time. A cursor over parquet files is the
-- list of the answers that `next` still gives before it has none: a row, or an error.
pub mod Feeds
pub mod Ready
pub mod Choice
pub mod Step
pub mod Merged
use tesser.Prelude.{ℕ, zero, suc, Bool, ◌||◌, Option, none, some, List, [], ◌∷◌, if◌then◌else◌}
use tesser.Prelude.Int.{ltb_ℤ}
use tesser.Prelude.Result.{Result, ok, err}
use tesser.Core.Ids.{Symbol, same_symbol}
use tesser.Core.Types.{Text, Time, Tick}
use tesser.Core.Book.{OrderBook, DepthUpdate}

abbrev pub Cursor : Type 0 → Type 0
Cursor A = List (Result Text A)

pub data Source : Type 0 where
  tick book depth : Source

pub data UnifiedEventKind (D : Type 0) : Type 0 where
  order_book : OrderBook D → UnifiedEventKind D
  depth_update : DepthUpdate D → UnifiedEventKind D
  trade : Tick D → UnifiedEventKind D

pub record UnifiedEvent (D : Type 0) : Type 0 where
  pub timestamp : Time
  pub kind : UnifiedEventKind D

-- the two fields that the code has for each of the three sources
pub record Feed (A : Type 0) : Type 0 where
  pub cursor : Option (Cursor A)
  pub peek : Option A

-- `symbols` is a hash set of symbols
pub record UnifiedEventStream (D : Type 0) : Type 0 where
  pub symbols : List Symbol
  pub ticks : Feed (Tick D)
  pub books : Feed (OrderBook D)
  pub depths : Feed (DepthUpdate D)

abbrev pub contains : Symbol → List Symbol → Bool
contains s [] = Bool.false
contains s (t ∷ ts) = same_symbol s t || contains s ts

-- `allow_all || filter.contains(…)`
abbrev pub admits : List Symbol → Symbol → Bool
admits [] s = Bool.true
admits (t ∷ ts) s = contains s (t ∷ ts)

module _ {A : Type 0} (symbol : A → Symbol) (symbols : List Symbol) where
  -- The loop of the `ensure` methods: what is left of the cursor, and the row that is found.
  abbrev pub seek : Cursor A → Cursor A × Result Text (Option A)
  seek [] = ([], ok none)
  seek (err e ∷ rows) = (rows, err e)
  seek (ok a ∷ rows) =
      let later = seek rows in if admits symbols (symbol a) then (rows, ok (some a)) else later

  -- `ensure_tick`, `ensure_book` and `ensure_depth`, which differ in the type of the rows only
  unfoldable pub ensure : Feed A → Feed A × Result Text (Unit {0})
  ensure f = elim f.peek [
    | some a ↦ (f, ok tt)
    | none ↦ elim f.cursor [
      | none ↦ (f, ok tt)
      | some rows ↦
          let (rest, found) = seek rows in
          elim found [
            | err e ↦ (record f { cursor = some rest }, err e)
            | ok peek ↦ (record { cursor = some rest; peek = peek }, ok tt)
          ]
    ]
  ]

unfoldable pub pick_candidate : Option (Time × Source) → Time → Source → Option (Time × Source)
pick_candidate none ts source = some (ts, source)
pick_candidate (some (existing_ts, existing_source)) ts source =
    if ltb_ℤ ts existing_ts then some (ts, source) else some (existing_ts, existing_source)

-- a candidate for a source that has a row in front
abbrev pub consider :
    {A : Type 0} → (A → Time) → Source → Option A → Option (Time × Source) → Option (Time × Source)
consider timestamp source none candidate = candidate
consider timestamp source (some a) candidate = pick_candidate candidate (timestamp a) source

-- What a call of `next_event` answers.
pub data Answer (D : Type 0) : Type 0 where
  event : UnifiedEvent D → Answer D
  finished : Answer D
  failed : Text → Answer D
  panicked : Answer D

module _ {D : Type 0} where
  abbrev pub tick_time : Tick D → Time
  tick_time t = t.exchange_timestamp

  abbrev pub book_time : OrderBook D → Time
  book_time b = b.timestamp

  abbrev pub depth_time : DepthUpdate D → Time
  depth_time u = u.timestamp

  abbrev pub tick_symbol : Tick D → Symbol
  tick_symbol t = t.symbol

  abbrev pub book_symbol : OrderBook D → Symbol
  book_symbol b = b.symbol

  abbrev pub depth_symbol : DepthUpdate D → Symbol
  depth_symbol u = u.symbol

  unfoldable pub candidate : UnifiedEventStream D → Option (Time × Source)
  candidate s =
      consider depth_time depth s.depths.peek
        (consider book_time book s.books.peek (consider tick_time tick s.ticks.peek none))

  -- `take` of the row in front; `none` is the panic of `expect`
  unfoldable pub take_event :
      Source → UnifiedEventStream D → Option (UnifiedEvent D × UnifiedEventStream D)
  take_event tick s = elim s.ticks.peek [
    | none ↦ none
    | some t ↦ some (
      record { timestamp = t.exchange_timestamp; kind = trade t },
      record s { ticks = record s.ticks { peek = none } },
    )
  ]
  take_event book s = elim s.books.peek [
    | none ↦ none
    | some b ↦ some (
      record { timestamp = b.timestamp; kind = order_book b },
      record s { books = record s.books { peek = none } },
    )
  ]
  take_event depth s = elim s.depths.peek [
    | none ↦ none
    | some u ↦ some (
      record { timestamp = u.timestamp; kind = depth_update u },
      record s { depths = record s.depths { peek = none } },
    )
  ]

  -- The results of the three calls of `ensure`, which stop at the first error.
  abbrev pub in_turn :
      UnifiedEventStream D
      → Feed (Tick D) × Result Text (Unit {0})
      → Feed (OrderBook D) × Result Text (Unit {0})
      → Feed (DepthUpdate D) × Result Text (Unit {0})
      → UnifiedEventStream D × Result Text (Unit {0})
  in_turn s (ticks, err e) _ _ = (record s { ticks = ticks }, err e)
  in_turn s (ticks, ok _) (books, err e) _ = (record s { ticks = ticks; books = books }, err e)
  in_turn s (ticks, ok _) (books, ok _) (depths, r) =
      (record s { ticks = ticks; books = books; depths = depths }, r)

  unfoldable pub ensure_all : UnifiedEventStream D → UnifiedEventStream D × Result Text (Unit {0})
  ensure_all s =
      in_turn s (ensure tick_symbol s.symbols s.ticks) (ensure book_symbol s.symbols s.books)
        (ensure depth_symbol s.symbols s.depths)

  unfoldable pub next_event : UnifiedEventStream D → UnifiedEventStream D × Answer D
  next_event s =
      let (ready, r) = ensure_all s in
      elim r [
        | err e ↦ (ready, failed e)
        | ok _ ↦ elim (candidate ready) [
          | none ↦ (ready, finished)
          | some (_, source) ↦ elim (take_event source ready) [
            | none ↦ (ready, panicked)
            | some (e, s') ↦ (s', event e)
          ]
        ]
      ]

  -- The items of `into_stream`, with fuel: `none` means that the fuel ran out, or a panic. The stream
  -- goes on after an error.
  unfoldable pub into_stream :
      ℕ → UnifiedEventStream D → Option (List (Result Text (UnifiedEvent D)))
  into_stream zero s = none
  into_stream (suc fuel) s =
      let (s', answer) = next_event s in
      let rest = into_stream fuel s' in
      elim answer [
        | finished ↦ some []
        | panicked ↦ none
        | failed e ↦ elim rest [ none ↦ none | some items ↦ some (err e ∷ items) ]
        | event e ↦ elim rest [ none ↦ none | some items ↦ some (ok e ∷ items) ]
      ]
