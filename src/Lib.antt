-- ===== src/Lib.antt =====
-- tesser: a trading engine. This library models the core of the program: the domain types and the local
-- order book (tesser-core), the path from a signal to the orders at the broker with its risk checks and
-- execution algorithms (tesser-execution), the accounting of what the orders did (tesser-portfolio,
-- tesser-ledger), the router of orders to exchanges (tesser-broker), the simulated exchange
-- (tesser-paper), the indicators (tesser-indicators), the comparison of recorded and exchange state
-- (tesser-cli), the merge of recorded data (tesser-data) and the feature window (tesser-cortex).
--
-- How the parts interact. A strategy emits a signal. `ExecutionEngine::handle_signal` chooses a quantity
-- by a sizer, checks a market order and its stops by a risk checker, and hands them to a broker. A large
-- order runs as an execution algorithm instead, a state machine that timers, ticks and fills drive and that
-- answers with child orders. Fills move the positions of the portfolio, whose equity drives a drawdown
-- switch, which the risk checker reads as the liquidate-only mode. The ledger entries of a fill move the
-- cash. Signals of a group are legs that belong together: if one fails, the orchestrator unwinds the
-- others. Where there are several exchanges, the broker is a router that gives each order an identifier
-- of its own. The simulated exchange keeps two local books, the market and its own resting orders, and
-- fills these by the trades that the merged stream replays.
--
-- Files and what they model:
--   Prelude, Prelude/*        shared names, integers, lists, hash maps, results, texts as bytes
--   Decimal, Decimal/*        rust_decimal::Decimal, a parameter: its operations (Decimal), what the program
--                             relies on (Decimal/Laws), and decimals in hundredths that meet it (Decimal/Cents)
--   Broker                    tesser-broker/src/lib.rs: BrokerError, BrokerInfo, and ExecutionClient as a record
--   Broker/Router             tesser-broker/src/router.rs: RouterExecutionClient under its names, Names its texts;
--                             Reach has the steps of its maps, History what these tell of orders, Calls and Events the
--                             theorems on calls and reports
--   Core/Ids                  tesser-core/src/identifiers.rs
--   Core/Types, Core/Cash     tesser-core/src/lib.rs: orders, fills, signals; Cash and CashBook
--   Core/Book, Core/Book/*    tesser-core/src/lib.rs: LocalOrderBook, one function per method under its name
--   Execution/Risk, Sizing, Engine   tesser-execution/src/lib.rs: BasicRiskChecker::check (split at its guards),
--                             the OrderSizer implementations, ExecutionEngine::handle_signal
--   Execution/Algorithm/*     tesser-execution/src/algorithm: iceberg.rs, sniper.rs, trailing_stop.rs,
--                             twap.rs, pegged.rs, vwap.rs
--   Execution/Orchestrator    tesser-execution/src/orchestrator.rs: ExecutionGroupState and the methods of
--                             OrderOrchestrator on groups; Panic has fail_group_leg and the orders it sends
--   Portfolio, Portfolio/*    tesser-portfolio/src/lib.rs: Holding is one position, Updates the operations on the
--                             portfolio, Build its construction, Drawdown the theorems on the switch
--   Ledger, Ledger/*          tesser-ledger/src: entry.rs (Ledger), journal.rs, sequencer.rs
--   Live                      tesser-cli/src/live.rs: the first part of handle_fill
--   Data/Merger               tesser-data/src/merger.rs: UnifiedEventStream; Feeds has the theorems on one source,
--                             Ready and Choice those on the three, Step and Merged those on the stream
--   Reconcile, Reconcile/*    tesser-cli/src/reconcile: StateDiffer::diff and its snapshots; Distinct has the
--                             theorems on a loop over a set, Exact those on positions, Orders those on orders
--   Paper/Conditional         connectors/tesser-paper/src/conditional.rs: ConditionalOrderManager; Groups, Sorted
--                             and Wins have the theorems on the groups of its orders
--   Paper/Fees                connectors/tesser-paper/src/fees.rs: ScheduleFeeModel and its configuration
--   Paper/Matching            connectors/tesser-paper/src/lib.rs: MatchingEngine; Booking has the fills and their
--                             booking, Orders what clients call, Trades the clock and process_trade. Below them
--                             Meet and Fair have the theorems on a trade, Queue on the queue, Settled and
--                             Reach on any sequence of calls, Limits and Amends on single calls
--   Paper/Client              connectors/tesser-paper/src/lib.rs: PaperExecutionClient
--   Paper/Candles             connectors/tesser-paper/src/lib.rs: CandleBuilder; Volume has the theorem
--   Indicators, Indicators/*  tesser-indicators/src: core.rs and combinators.rs (Indicators), one module per file
--                             of indicators/; Window has the rolling windows, Renewal the theorem on reset
--   Cortex/Buffer             tesser-cortex/src/buffer.rs: FeatureBuffer
--
-- Correspondence. A method that changes `self` is a function to the new state; a `Result` is the data
-- type of Prelude/Result; a `BTreeMap` is its list of entries in key order, a `HashMap` an association
-- list. Time stamps are numbers of nanoseconds; each reading of the clock, each new identifier, the
-- broker, the market registry, a square root, and the printing of identifiers and errors are arguments. The broker
-- answers by the requests that it had before. The status of an algorithm is the value that its
-- `status` method reads from a text. The sign of a decimal is that of its value: a zero with a negative
-- sign, which the sign tests of the indicators could tell apart, is not represented.
--
-- Bounds and fuel. Two loops are on fuel; the simulated exchange gives the first one a round for each
-- level and one more. Each round of `take_liquidity` empties a level or ends the
-- order, so more rounds than levels are enough; each item of `into_stream` uses up a row or an error
-- of a source, so more rounds than there are of these are enough. That they end is part of their
-- theorems. Texts that hold a `u32` are printed and read with the ten digits that it can have; slice
-- counters stay below the number of slices, so their 32 bits never overflow, and the sequence numbers
-- of children wrap around at 2^32, those of the ledger at 2^64. Decimals stay inside the range in
-- which `rust_decimal` does not panic: the laws of Decimal/Laws state its documented behaviour there.
--
-- Not modelled: the checksum of the book (CRC-32 of a package), the registries that intern
-- identifiers, the conversion of floats, the streams of paper prices, logging and metrics, persistence and JSON, the routing of events to running algorithms,
-- the asynchronous loops, the exchange clients, Parquet files, the command line but for the booking of
-- a fill and the reconciliation, and the bindings. A cursor over files is the list of its answers, an
-- array view and the drawn identifiers are arguments. `confidence`, a float that this code never
-- reads, is left out.
pub mod Prelude
pub mod Decimal
pub mod Broker
pub mod Core
pub mod Execution
pub mod Cortex
pub mod Data
pub mod Ledger
pub mod Indicators
pub mod Live
pub mod Paper
pub mod Portfolio
pub mod Reconcile
