-- ===== src/Text/Utf8/Examples.antt =====
-- Tests of the UTF-8 rules and their theorems at concrete texts.
use workpane.Prelude.{ℕ, ◌≡◌, refl, List, [], ◌∷◌, true, false, arith}
use workpane.Text.Utf8.{
  sequence_length, follows, all_follow, valid_loop, valid, truncated, truncated_index,
}
use workpane.Text.Utf8.Encoding.{encode, encode_all, IsEncoding}
use workpane.Text.Utf8.Validity.{valid-iff-IsEncoding}
use workpane.Text.Utf8.Truncation.{truncated-encode_all, truncated-valid}

-- "a", a small e with an acute accent, the euro sign and a musical clef.
abbrev mixed : List ℕ
mixed = 0x61 ∷ 0xC3 ∷ 0xA9 ∷ 0xE2 ∷ 0x82 ∷ 0xAC ∷ 0xF0 ∷ 0x9D ∷ 0x84 ∷ 0x9E ∷ []

abbrev characters : List ℕ
characters = 0x61 ∷ 0xE9 ∷ 0x20AC ∷ 0x1D11E ∷ []

encode_all-characters : encode_all characters ≡ mixed
unfolding encode_all encode
encode_all-characters = refl

mixed-valid : valid mixed ≡ true
unfolding valid valid_loop all_follow follows sequence_length
mixed-valid = refl

-- A surrogate, an overlong form and a sequence that is cut short.
surrogate_refused : valid (0xED ∷ 0xA0 ∷ 0x80 ∷ []) ≡ false
unfolding valid valid_loop all_follow follows sequence_length
surrogate_refused = refl

overlong_refused : valid (0xE0 ∷ 0x80 ∷ 0x80 ∷ []) ≡ false
unfolding valid valid_loop all_follow follows sequence_length
overlong_refused = refl

short_refused : valid (0xE2 ∷ 0x82 ∷ []) ≡ false
unfolding valid valid_loop all_follow follows sequence_length
short_refused = refl

truncated-mixed : truncated mixed 2 ≡ 0x61 ∷ 0xC3 ∷ 0xA9 ∷ []
unfolding truncated truncated_index sequence_length
truncated-mixed = refl

valid-iff-IsEncoding_example : IsEncoding mixed
valid-iff-IsEncoding_example = (valid-iff-IsEncoding mixed).0 mixed-valid

truncated-encode_all_example :
    truncated (encode_all characters) 3 ≡ encode_all (0x61 ∷ 0xE9 ∷ 0x20AC ∷ [])
truncated-encode_all_example = truncated-encode_all characters 3 (omega arith)

truncated-valid_example : valid (truncated mixed 3) ≡ true
truncated-valid_example = truncated-valid mixed 3 mixed-valid
