-- ===== src/Logging.antt =====
-- The logging of src/logging.
pub mod Service
