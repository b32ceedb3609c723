-- ===== src/Http.antt =====
-- src/http: the server of the files of a plugin.
pub mod Resolver
pub mod MimeTypes
