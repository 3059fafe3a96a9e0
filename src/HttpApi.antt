-- ===== src/HttpApi.antt =====
-- server/internal/httpapi: the handlers and the middleware that guard the API.
pub mod UserAdmin
pub mod Guards
pub mod RealIp
pub mod Clusters
pub mod Resources
pub mod Writes
pub mod Forwards
pub mod Options
pub mod RateLimit
pub mod SignIn
