-- ===== src/Notification.antt =====
-- internal/notification: the worker that delivers notifications, and what it sends where.
pub mod Texts
pub mod Targets
pub mod Runner
