-- ===== src/Ledger.antt =====
-- internal/ledger
pub mod Minor
pub mod Entry
pub mod Post
pub mod Read
pub mod Trial
pub mod Once
pub mod Open
pub mod Stable
pub mod Book
