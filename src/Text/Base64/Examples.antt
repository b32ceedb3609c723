-- ===== src/Text/Base64/Examples.antt =====
-- Tests of the Base64 code and its theorems at concrete texts.
use workpane.Prelude.{ℕ, ◌≡◌, refl, List, [], ◌∷◌, none, some}
use workpane.Text.Base64.{alphabet, sextet, encode, value, shift_in, decode_loop, unpadded, decode}
use workpane.Text.Base64.Decoding.{decode-iff-encode}

-- "Man!" and "TWFuIQ==".
abbrev plain : List ℕ
plain = b'M' ∷ b'a' ∷ b'n' ∷ b'!' ∷ []

abbrev coded : List ℕ
coded = b'T' ∷ b'W' ∷ b'F' ∷ b'u' ∷ b'I' ∷ b'Q' ∷ b'=' ∷ b'=' ∷ []

encode-plain : encode plain ≡ coded
unfolding encode sextet alphabet
encode-plain = refl

decode-coded : decode coded ≡ some plain
unfolding decode decode_loop unpadded value shift_in
decode-coded = refl

-- Bits that no byte takes, and padding in the middle.
stray_bits_refused : decode (b'Q' ∷ b'R' ∷ b'=' ∷ b'=' ∷ []) ≡ none
unfolding decode decode_loop unpadded value shift_in
stray_bits_refused = refl

inner_padding_refused : decode (b'Q' ∷ b'=' ∷ b'Q' ∷ b'=' ∷ []) ≡ none
unfolding decode decode_loop unpadded value shift_in
inner_padding_refused = refl

decode-iff-encode_example : coded ≡ encode plain
decode-iff-encode_example = ((decode-iff-encode coded plain).0 decode-coded).0
