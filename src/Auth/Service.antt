-- ===== src/Auth/Service.antt =====
-- server/internal/auth/service.go: sign-in, second factor, sessions and passwords. The types are in
-- Auth/Service/Types, the handlers of the password step and of sessions here, those of the second
-- factor in Auth/Service/SecondFactor, the proofs in the other children.
pub mod Types
pub mod Login
pub mod SecondFactor
pub mod Sound
pub mod Rounds
pub mod Factors
pub mod Recovery
