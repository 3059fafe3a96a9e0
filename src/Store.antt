-- ===== src/Store.antt =====
-- server/internal/store: the repositories over PostgreSQL. `Db` is the database and how a statement
-- runs against it; the others are the tables with their repositories.
pub mod Db
pub mod Flow
pub mod Models
pub mod Registry
pub mod Users
pub mod Sessions
pub mod Codes
pub mod Audit
pub mod Settings
pub mod Clusters
