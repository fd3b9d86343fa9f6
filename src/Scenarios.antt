-- ===== src/Scenarios.antt =====
-- Concrete runs: candles of one minute, a worker, a rate limiter and a strategy.
mod Market
mod Serving
mod Workers
mod Leases
mod Strategies
mod Audits
mod Pages
mod Notices
mod Requests
