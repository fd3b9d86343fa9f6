-- ===== src/Strategy.antt =====
-- internal/strategy: the definitions of strategies, and the intents that they give.
pub mod Intents
pub mod Params
pub mod Signals
