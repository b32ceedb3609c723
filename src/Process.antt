-- ===== src/Process.antt =====
-- src/process: the programs that the product runs.
pub mod ProcessText
