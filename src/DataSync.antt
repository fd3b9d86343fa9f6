-- ===== src/DataSync.antt =====
-- internal/datasync: the worker that fetches candles for data sync tasks.
pub mod Config
pub mod Schedule
pub mod Cursor
pub mod Errors
pub mod Fetch
pub mod Runner
