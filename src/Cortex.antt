-- ===== src/Cortex.antt =====
-- tesser-cortex/src: the feature windows that the models read.
pub mod Buffer
mod Tests
