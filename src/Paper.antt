-- ===== src/Paper.antt =====
-- connectors/tesser-paper/src: the simulated exchange.
pub mod Conditional
pub mod Fees
pub mod Client
pub mod Candles
pub mod Matching
mod Tests
