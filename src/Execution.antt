-- ===== src/Execution.antt =====
-- The queues of src/execution.
pub mod MainThread
pub mod Workers
