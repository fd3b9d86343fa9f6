-- ===== src/Data/Provider.antt =====
-- internal/data/candle_provider.go and candle_provider_aggregation.go.
pub mod Results
pub mod BaseWindow
pub mod Aggregation
pub mod Trimming
pub mod Serving
