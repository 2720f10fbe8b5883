-- ===== src/Controls.antt =====
-- tools/controls: the mutations declared in negative-controls, and the run that insists on each.
pub mod Text
pub mod File
pub mod Run
