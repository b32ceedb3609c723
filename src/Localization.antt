-- ===== src/Localization.antt =====
-- src/localization: the sentences of the product in several languages.
pub mod Words
pub mod Catalogs
