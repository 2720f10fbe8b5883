-- ===== src/Http.antt =====
-- internal/ledgerhttp
pub mod Pool
pub mod Wire
pub mod Refusals
pub mod Hiding
pub mod Reads
pub mod Paging
pub mod Json
pub mod Decode
pub mod Writes
pub mod Serve
