-- ===== src/Tests.antt =====
-- Runs of the definitions, and the theorems at concrete inputs.
mod Sample
mod Runs
mod Witnesses
mod Calls
mod Tools
