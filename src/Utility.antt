-- ===== src/Utility.antt =====
-- src/utility: what stands on the core.
pub mod TimeSeries
pub mod Aggregator
pub mod Format
pub mod ErrHand
mod Tests
