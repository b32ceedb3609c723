-- ===== src/Scripting/Identifier.antt =====
-- `Identifier` of src/scripting/Identifier.cpp, the grammar of the names of plugins.
use workpane.Prelude.{ℕ, Bool, true, false, ◌&&◌, ◌||◌, [], ◌∷◌, ◌==◌, between, if◌then◌else◌}
use workpane.Prelude.Bytes.{Bytes, last_or}

-- `identifier.find("--") != npos`.
abbrev pub double_hyphen : Bytes → Bool
double_hyphen [] = false
double_hyphen (x ∷ []) = false
double_hyphen (x ∷ y ∷ text) = x == b'-' && y == b'-' || double_hyphen (y ∷ text)

abbrev pub identifier_byte : ℕ → Bool
identifier_byte x = between b'a' b'z' x || between b'0' b'9' x || x == b'-'

abbrev pub all_bytes : Bytes → Bool
all_bytes [] = true
all_bytes (x ∷ text) = identifier_byte x && all_bytes text

abbrev refusing : ℕ → Bytes → Bool
refusing x text = x == b'-' || last_or text x == b'-' || double_hyphen (x ∷ text)

unfoldable pub valid : Bytes → Bool
valid [] = false
valid (x ∷ text) = if refusing x text then false else all_bytes (x ∷ text)
