-- ===== src/Localization/Words.antt =====
-- The texts of src/localization/Localization.cpp: identifiers, locales and the arguments of a sentence.
-- A text is the list of its bytes.
pub mod Substitution
use workpane.Prelude.{
  ℕ, ◌+◌, ◌-◌, Bool, true, false, not, ◌&&◌, ◌||◌, List, [], ◌∷◌, ◌++◌, Option, none, some, map,
  length, ltb, leb, ◌==◌, between, if◌then◌else◌, get_or,
}
use workpane.Prelude.Bytes.{Bytes, codes, same, cut, holds_byte, last_or}

-- Whether every byte is a small letter, a digit or, where it is allowed, a hyphen.
unfoldable pub all_lowercase : Bool → Bytes → Bool
all_lowercase hyphen [] = true
all_lowercase hyphen (x ∷ text) =
    (between b'a' b'z' x || between b'0' b'9' x || hyphen && x == b'-') && all_lowercase hyphen text

unfoldable pub lowercase_word : Bytes → Bool → Bool
lowercase_word [] hyphen = false
lowercase_word (x ∷ text) hyphen =
    if x == b'-' || last_or text x == b'-' then false else all_lowercase hyphen (x ∷ text)

unfoldable pub valid_owner : Bytes → Bool
valid_owner owner = lowercase_word owner true

unfoldable pub base_language : Bytes → Bytes
base_language locale = (cut b'-' locale).0

abbrev three_words : Bytes → Bytes → Bytes → Bool
three_words a b c = lowercase_word a true && lowercase_word b true && lowercase_word c true

abbrev third_word : Bytes → Bytes × Option Bytes → Bool
third_word a (b, none) = false
third_word a (b, some c) = if holds_byte b'.' c then false else three_words a b c

abbrev second_word : Bytes × Option Bytes → Bool
second_word (a, none) = false
second_word (a, some behind) = third_word a (cut b'.' behind)

unfoldable pub valid_key : Bytes → Bool
valid_key key = second_word (cut b'.' key)

abbrev valid_region : Option Bytes → Bool
valid_region none = true
valid_region (some region) =
    leb 2 (length region) && leb (length region) 8 && lowercase_word region false

unfoldable pub valid_locale : Bytes → Bool
valid_locale locale =
    let (language, region) = cut b'-' locale in
    if ltb (length language) 2 || ltb 3 (length language) || not (lowercase_word language false)
    then false
    else valid_region region

-- A set of numbers, in order and each once.
unfoldable pub insert_number : ℕ → List ℕ → List ℕ
insert_number n [] = n ∷ []
insert_number n (m ∷ numbers) =
    if n == m then m ∷ numbers else if ltb n m then n ∷ m ∷ numbers else m ∷ insert_number n numbers

-- `%` and a digit from 1 to 9.
abbrev pub is_placeholder : ℕ → ℕ → Bool
is_placeholder x y = x == b'%' && between b'1' b'9' y

unfoldable pub placeholders_from : List ℕ → Bytes → List ℕ
placeholders_from numbers [] = numbers
placeholders_from numbers (x ∷ []) = numbers
placeholders_from numbers (x ∷ y ∷ text) =
    placeholders_from (if is_placeholder x y then insert_number (y - b'0') numbers else numbers)
      (y ∷ text)

unfoldable pub placeholders : Bytes → List ℕ
placeholders text = placeholders_from [] text

unfoldable pub substitute : Bytes → List Bytes → Bytes
substitute [] arguments = []
substitute (x ∷ []) arguments = x ∷ []
substitute (x ∷ y ∷ text) arguments =
    elim (is_placeholder x y && ltb (y - b'1') (length arguments)) [
      | true ↦ get_or arguments (y - b'1') [] ++ substitute text arguments
      | false ↦ x ∷ substitute (y ∷ text) arguments
    ]

-- src/localization/Language.h; a separator is one byte.
pub record Language : Type 0 where
  pub id : Bytes
  pub title_key : Bytes
  pub decimal_separator : ℕ
  pub group_separator : ℕ

abbrev pub english : Bytes
english = codes "en"

abbrev pub languages : List Language
languages =
    record {
      id = english;
      title_key = codes "workpane.language.english";
      decimal_separator = b'.';
      group_separator = b',';
    }
    ∷ record {
      id = codes "pt";
      title_key = codes "workpane.language.portuguese";
      decimal_separator = b',';
      group_separator = b'.';
    }
    ∷ []

unfoldable pub any_language : Bytes → List Language → Bool
any_language id [] = false
any_language id (language ∷ rest) = same language.id id || any_language id rest

unfoldable pub supported_language : Bytes → Bool
supported_language id = any_language id languages

-- `std::tolower` in the C locale, and an underscore as a hyphen.
abbrev normal_byte : ℕ → ℕ
normal_byte x = if x == b'_' then b'-' else if between b'A' b'Z' x then x + 32 else x

unfoldable pub normalize_locale : Bytes → Bytes
normalize_locale [] = []
normalize_locale (x ∷ locale) =
    if x == b'.' || x == b'@' then [] else normal_byte x ∷ normalize_locale locale

unfoldable pub resolve_language : Bytes → Bytes
resolve_language system =
    let normalized = normalize_locale system in
    if supported_language normalized
    then normalized
    else if supported_language (base_language normalized)
    then base_language normalized
    else english
