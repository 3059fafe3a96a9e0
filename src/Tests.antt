-- ===== src/Tests.antt =====
-- The theorems at concrete inputs, and the data that these share.
mod Data
mod Stores
mod Sealing
mod Signing
mod SigningIn
mod Factors
mod Api
mod Shell
mod Writes
mod Writing
mod Options
mod Loading
mod Shipping
mod Pods
mod Registry
mod Trail
mod Pasting
mod Limits
