-- ===== src/Execution.antt =====
-- tesser-execution/src: from signals to orders.
pub mod Risk
pub mod Sizing
pub mod Engine
pub mod Algorithm
pub mod Orchestrator
pub mod Tests
