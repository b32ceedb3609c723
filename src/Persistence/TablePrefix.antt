-- ===== src/Persistence/TablePrefix.antt =====
-- `PluginDatabase::tablePrefix` of src/persistence/PluginDatabase.cpp and `PluginAuthorizer::owned` of
-- src/persistence/PluginAuthorizer.cpp.
pub mod Owners
use workpane.Prelude.{
  ℕ, Bool, true, false, ◌&&◌, List, [], ◌∷◌, ◌++◌, Option, none, some, length, ltb, ◌==◌,
  if◌then◌else◌,
}
use workpane.Prelude.Bytes.{Bytes, starts_with}

-- `std::ranges::replace(prefix, '-', '_')`.
abbrev pub underscored : Bytes → Bytes
underscored [] = []
underscored (x ∷ text) = (if x == b'-' then b'_' else x) ∷ underscored text

unfoldable pub table_prefix : Bytes → Bytes
table_prefix id = underscored id ++ b'_' ∷ b'_' ∷ []

-- A name is absent where SQLite hands over a null pointer.
unfoldable pub owned : Option Bytes → Bytes → Bool
owned none prefix = false
owned (some name) prefix = ltb (length prefix) (length name) && starts_with prefix name
