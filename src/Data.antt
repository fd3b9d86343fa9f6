-- ===== src/Data.antt =====
-- Candle data: internal/data. The children follow its files.
pub mod Interval
pub mod Model
pub mod Validation
pub mod Query
pub mod Gaps
pub mod Aggregate
pub mod Cursor
pub mod Provider
