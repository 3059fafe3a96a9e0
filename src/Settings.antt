-- ===== src/Settings.antt =====
-- server/internal/settings: the options of a deployment that an administrator edits, and the secrets that
-- they carry.
pub mod Logs
pub mod Types
pub mod Service
pub mod Running
pub mod Secrets
pub mod Sinks
