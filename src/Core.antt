-- ===== src/Core.antt =====
-- tesser-core/src/lib.rs and identifiers.rs: the data that the whole workspace shares.
pub mod Ids
pub mod Types
pub mod Cash
pub mod Book
