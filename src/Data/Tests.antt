-- ===== src/Data/Tests.antt =====
-- Ticks of two symbols with an error between them, and a book, merged.
use tesser.Prelude.{ℕ, ◌≡◌, none, some, List, [], ◌∷◌, arith}
use tesser.Prelude.Int.{pos}
use tesser.Prelude.Result.{Result, ok, err}
use tesser.Core.Ids.{Symbol}
use tesser.Core.Types.{Text, Time, buy, Tick}
use tesser.Core.Book.{OrderBook}
use tesser.Data.Merger.{UnifiedEvent, UnifiedEventStream, into_stream}
use tesser.Data.Merger.Feeds.{IsOrdered}
use tesser.Data.Merger.Ready.{AllOrdered, stamp}
use tesser.Data.Merger.Merged.{Complete, into_stream-Complete, into_stream_chronological}

abbrev symbol_of : ℕ → Symbol
symbol_of n = record { exchange = 1; market_id = n }

abbrev tick_at : ℕ → Time → Tick ℕ
tick_at n t = record {
  symbol = symbol_of n;
  price = 100;
  size = 1;
  side = buy;
  exchange_timestamp = t;
  received_at = t;
}

abbrev book_at : Time → OrderBook ℕ
book_at t = record {
  symbol = symbol_of 7;
  bids = [];
  asks = [];
  timestamp = t;
  exchange_checksum = none;
  local_checksum = none;
}

abbrev recorded : UnifiedEventStream ℕ
recorded = record {
  symbols = symbol_of 7 ∷ [];
  ticks = record {
    cursor =
        some
          (ok (tick_at 7 (pos 5)) ∷ ok (tick_at 8 (pos 6)) ∷ err [] ∷ ok (tick_at 7 (pos 9)) ∷ []);
    peek = none;
  };
  books = record { cursor = some (ok (book_at (pos 7)) ∷ []); peek = none };
  depths = record { cursor = none; peek = none };
}

recorded-AllOrdered : AllOrdered recorded
recorded-AllOrdered = ground arith

into_stream-Complete_example :
    (items : List (Result Text (UnifiedEvent ℕ))) × (into_stream 6 recorded ≡ some items)
    × Complete recorded items
into_stream-Complete_example = into_stream-Complete 6 recorded (omega arith)

into_stream_chronological_example :
    (items : List (Result Text (UnifiedEvent ℕ))) × (into_stream 6 recorded ≡ some items)
    × IsOrdered stamp items
into_stream_chronological_example =
    into_stream_chronological 6 recorded (omega arith) recorded-AllOrdered
