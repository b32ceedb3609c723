-- ===== src/Search/Matcher.antt =====
-- `TextMatcher` of src/ui/TextMatcher.cpp. A place in the line is the number of bytes before it, with
-- the list of those from there on.
pub mod Occurrences
pub mod Examples
use workpane.Prelude.{
  ℕ, zero, suc, ◌+◌, ◌-◌, Bool, true, false, not, ◌&&◌, ◌||◌, List, [], ◌∷◌, ◌++◌, Option, none,
  some, length, get_or, ltb, leb, ◌==◌, between, if◌then◌else◌,
}
use workpane.Prelude.Bytes.{Bytes, starts_with}

pub record Match : Type 0 where
  pub start : ℕ
  pub end : ℕ

pub record TextMatcher : Type 0 where
  pub needle : Bytes
  pub case_sensitive : Bool
  pub whole_word : Bool

abbrev fold_byte : ℕ → ℕ
fold_byte x = if between b'A' b'Z' x then x - b'A' + b'a' else x

unfoldable pub folded : Bytes → Bool → Bytes
folded [] case_sensitive = []
folded (x ∷ text) case_sensitive =
    (if case_sensitive then x else fold_byte x) ∷ folded text case_sensitive

unfoldable pub matcher : Bytes → Bool → Bool → TextMatcher
matcher needle case_sensitive whole_word = record {
  needle = folded needle case_sensitive;
  case_sensitive = case_sensitive;
  whole_word = whole_word;
}

abbrev pub nothing : Bytes → Bool
nothing [] = true
nothing (x ∷ text) = false

unfoldable pub is_empty : TextMatcher → Bool
is_empty m = nothing m.needle

abbrev word_byte : ℕ → Bool
word_byte x =
    between b'a' b'z' x || between b'A' b'Z' x || between b'0' b'9' x || x == b'_' || leb 0x80 x

unfoldable pub boundary : Bytes → ℕ → Bool
boundary text index =
    index == 0
    || leb (length text) index
    || not (word_byte (get_or text (index - 1) 0))
    || not (word_byte (get_or text index 0))

-- `haystack.find(needle, index)`: the place of the next occurrence, with what stands behind its first byte.
unfoldable pub next_occurrence : Bytes → ℕ → Bytes → Option (ℕ × Bytes)
next_occurrence needle index [] = none
next_occurrence needle index (x ∷ rest) =
    let later = next_occurrence needle (index + 1) rest in
    if starts_with needle (x ∷ rest) then some (index, rest) else later

abbrev pub accepted : TextMatcher → Bytes → ℕ → Bool
accepted m haystack found =
    not m.whole_word || boundary haystack found && boundary haystack (found + length m.needle)

abbrev pub match_at : TextMatcher → ℕ → Match
match_at m found = record { start = found; end = found + length m.needle }

-- The loop of `find`, over the occurrences.
unfoldable pub find_loop :
    ℕ → TextMatcher → Bytes → ℕ → Option (ℕ × Bytes) → List Match → List Match
find_loop fuel m haystack limit none matches = matches
find_loop zero m haystack limit (some found) matches = matches
find_loop (suc fuel) m haystack limit (some (found, rest)) matches =
    elim (ltb (length matches) limit) [
      | false ↦ matches
      | true ↦
          find_loop fuel m haystack limit (next_occurrence m.needle (found + 1) rest)
            (if accepted m haystack found then matches ++ match_at m found ∷ [] else matches)
    ]

unfoldable pub find_matches : TextMatcher → Bytes → ℕ → List Match
find_matches m line limit =
    let haystack = folded line m.case_sensitive in
    if nothing m.needle
    then []
    else find_loop (length haystack) m haystack limit (next_occurrence m.needle 0 haystack) []
