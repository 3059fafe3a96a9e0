-- ===== src/Audit.antt =====
-- server/internal/audit: the copy of the audit trail that is shipped to another system, where it goes, and
-- which shipper runs.
pub mod Sinks
pub mod Manager
pub mod Shipper
