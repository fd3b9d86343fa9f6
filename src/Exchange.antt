-- ===== src/Exchange.antt =====
-- Exchange clients: internal/exchange.
pub mod RateLimit
