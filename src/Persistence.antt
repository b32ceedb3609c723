-- ===== src/Persistence.antt =====
-- src/persistence: the database that the core and the plugins share.
pub mod TablePrefix
pub mod Authorizer
pub mod SchemaText
pub mod Transactions
pub mod Preferences
pub mod Migrations
