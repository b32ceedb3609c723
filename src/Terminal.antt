-- ===== src/Terminal.antt =====
-- The terminal of src/ui/components/terminal.
pub mod Stream
pub mod Selection
pub mod Finder
