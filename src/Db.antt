-- ===== src/Db.antt =====
-- The database: db/store.go over the schema of migrations/.
pub mod Rows
pub mod Session
pub mod Sql
pub mod Users
pub mod Valid
pub mod Jobs
pub mod Outbox
pub mod Keys
pub mod Idempotency
