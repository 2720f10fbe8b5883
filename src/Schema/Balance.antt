-- ===== src/Schema/Balance.antt =====
-- The balance rule of internal/schema/0001_ledger.sql: the deferred triggers and their queue table.
pub mod Evasion
pub mod Firing
pub mod Covered
pub mod Writes
