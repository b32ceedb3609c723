-- ===== src/Scripting.antt =====
-- src/scripting: what the host grants the Lua plugins.
pub mod Identifier
pub mod Registry
