-- ===== src/Persistence/SchemaText.antt =====
-- `SchemaTextHelper` of src/persistence/SchemaTextHelper.cpp, which folds the text of a definition so that
-- two can be compared.
pub mod Folding
pub mod Examples
use workpane.Prelude.{
  ℕ, Bool, true, false, not, ◌&&◌, ◌||◌, List, [], ◌∷◌, ◌++◌, Option, none, some, ◌==◌,
  if◌then◌else◌,
}
use workpane.Prelude.Bytes.{Bytes, last_or}

abbrev pub punctuation : ℕ → Bool
punctuation x = x == b'(' || x == b')' || x == b','

abbrev pub is_blank : ℕ → Bool
is_blank x = x == 32 || x == 10 || x == 13 || x == 9

abbrev pub quote : ℕ
quote = 34

abbrev pub holds : Bytes → Bool
holds [] = false
holds (x ∷ text) = true

-- What a character that stays adds to the result.
abbrev pub spaced : Bytes → Bool → ℕ → Bytes
spaced result space x =
    if space && not (punctuation (last_or result 0)) && not (punctuation x)
    then 32 ∷ x ∷ []
    else x ∷ []

-- The loop of `normalized`, with the result and whether a space is due.
unfoldable pub normalize : Bytes → Bool → Bytes → Bytes
normalize result space [] = result
normalize result space (x ∷ sql) =
    let quoted = normalize result space sql in
    let blank = normalize result (holds result) sql in
    let other = normalize (result ++ spaced result space x) false sql in
    if x == quote then quoted else if is_blank x then blank else other

unfoldable pub normalized : Bytes → Bytes
normalized sql = normalize [] false sql
