-- ===== src/Auth.antt =====
-- server/internal/auth: the password policy, the recovery codes, and the service that signs people in.
pub mod Policy
pub mod Totp
pub mod Service
