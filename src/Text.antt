-- ===== src/Text.antt =====
-- The helpers of src/text: texts as lists of bytes.
pub mod Utf8
pub mod Base64
