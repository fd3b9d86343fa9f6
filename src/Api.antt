-- ===== src/Api.antt =====
-- internal/web/api: the checks of requests before anything is stored, and the limit on logins.
pub mod Symbols
pub mod Trading
pub mod Logins
