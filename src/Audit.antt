-- ===== src/Audit.antt =====
-- The hash chain of audit events: internal/store/postgres/audit_store.go, audit_hash_verify.go and
-- audit_retention_store.go.
pub mod Hashes
pub mod Verification
pub mod Retention
pub mod Pruning
pub mod Recording
pub mod Listing
