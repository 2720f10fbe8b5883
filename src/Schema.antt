-- ===== src/Schema.antt =====
-- internal/schema/0001_ledger.sql
pub mod Server
pub mod Tables
pub mod Triggers
pub mod Statements
pub mod Apply
pub mod Balance
pub mod Deferred
