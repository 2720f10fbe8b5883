-- ===== src/Cmd.antt =====
-- cmd/pacioli: the command line.
pub mod Config
pub mod Settled
pub mod Serve
