-- ===== src/Data.antt =====
-- tesser-data/src: the recorded market data.
pub mod Merger
mod Tests
