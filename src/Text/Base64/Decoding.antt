-- ===== src/Text/Base64/Decoding.antt =====
-- `encode` and `decode` are inverse to one another.
use workpane.Prelude.{
  ℕ, ◌%◌, ◌≡◌, ◌≢◌, ◌↔◌, arith, refl, List, [], ◌∷◌, ◌++◌, length, All, take, drop, ap, ◌∙◌, sym,
  take-append, take-append-drop, length-take, length-drop, some,
}
use workpane.Text.Base64.{sextet, encode, decode, decode_loop, unpadded}
use workpane.Text.Base64.Digits.{alphabet-ne-pad}
use workpane.Text.Base64.Groups.{IsByte, digits, padding, encode-digits}
use workpane.Text.Base64.Inverse.{decode_loop-digits, decode_loop-Decoded}
use workpane.Text.Base64.Padding.{
  IsUnpadded, unpadded-padding, unpadded-Stripped, padding_unique, Stripped,
}

sextet-ne-pad : (bits shift : ℕ) → sextet bits shift ≢ b'='
unfolding sextet
sextet-ne-pad bits shift = alphabet-ne-pad _ (omega arith)

digits-IsUnpadded : (bytes : List ℕ) → IsUnpadded (digits bytes)
digits-IsUnpadded [] = tt
digits-IsUnpadded (a ∷ []) = (sextet-ne-pad _ _, (sextet-ne-pad _ _, tt))
digits-IsUnpadded (a ∷ b ∷ []) = (sextet-ne-pad _ _, (sextet-ne-pad _ _, (sextet-ne-pad _ _, tt)))
digits-IsUnpadded (a ∷ b ∷ c ∷ bytes) = (
  sextet-ne-pad _ _,
  (sextet-ne-pad _ _, (sextet-ne-pad _ _, (sextet-ne-pad _ _, digits-IsUnpadded bytes))),
)

-- The lengths that the test in front of the loop asks for.
length-digits :
    (bytes : List ℕ)
    → (length (digits bytes ++ padding (digits bytes)) % 4 ≡ 0) × (length (digits bytes) % 4 ≢ 1)
length-digits [] = omega arith
length-digits (a ∷ []) = omega arith
length-digits (a ∷ b ∷ []) = omega arith
length-digits (a ∷ b ∷ c ∷ bytes) = let ih = length-digits bytes in omega arith

decode-padded :
    (text : List ℕ)
    → length (text ++ padding text) % 4 ≡ 0
    → length text % 4 ≢ 1
    → IsUnpadded text
    → decode (text ++ padding text) ≡ decode_loop text 0 0 []
unfolding decode
decode-padded text e n u =
    rw (unpadded-padding text u) (rw (take-append text (padding text)) (ground arith))

-- Decoding what was encoded gives the bytes back.
pub decode-encode : (bytes : List ℕ) → All IsByte bytes → decode (encode bytes) ≡ some bytes
decode-encode bytes h =
    let (e, n) = length-digits bytes in
    rw (encode-digits bytes)
      (decode-padded (digits bytes) e n (digits-IsUnpadded bytes) ∙ decode_loop-digits bytes 0 [] h)

decode_checks :
    (text bytes : List ℕ)
    → decode text ≡ some bytes
    → (let count = unpadded (length text) text (length text) in
        (length text % 4 ≡ 0)
        × (count % 4 ≢ 1)
        × (decode_loop (take count text) 0 0 [] ≡ some bytes))
unfolding decode
decode_checks text bytes h = ground arith

drop-length : (xs : List ℕ) → drop (length xs) xs ≡ []
drop-length [] = refl
drop-length (x ∷ xs) = drop-length xs

Stripped-start : (text : List ℕ) → Stripped text (length text)
Stripped-start text = record {
  within = omega arith;
  few = omega arith;
  pads = rw (drop-length text) tt;
}

-- A text whose digits decode, cut in front of the right padding, is an encoding.
encode-take :
    (text bytes : List ℕ) (count : ℕ)
    → Stripped text count
    → length text % 4 ≡ 0
    → count % 4 ≢ 1
    → decode_loop (take count text) 0 0 [] ≡ some bytes
    → (encode bytes ≡ text) × All IsByte bytes
encode-take text bytes count s e n h =
    let w = s.within in
    let f = s.few in
    let l : length (take count text) ≡ count = omega (arith, length-take count text) in
    let m = length-drop count text in
    let d = decode_loop-Decoded (take count text) 0 [] bytes (rw l n) h in
    let p =
      padding_unique (take count text) (drop count text) s.pads (omega arith) (omega arith)
        (rw l n) in
    (
      ap encode d.appended
          ∙ encode-digits d.bytes
          ∙ rw d.encoded
              (ap (λ (q : List ℕ). take count text ++ q) (sym p) ∙ take-append-drop count text),
      rw d.appended d.in_range,
    )

-- `decode` accepts a text exactly if it is the encoding of some bytes, and returns those: the only
-- texts accepted are canonical, with their padding whole and the unused bits of the last digit 0.
pub decode-iff-encode :
    (text bytes : List ℕ) → (decode text ≡ some bytes) ↔ ((text ≡ encode bytes) × All IsByte bytes)
decode-iff-encode text bytes = (
  λ h.
      let (e, n, k) = decode_checks text bytes h in
      let (q, r) =
        encode-take text bytes (unpadded (length text) text (length text))
          (unpadded-Stripped (length text) text (length text) (Stripped-start text)) e n k in
      (sym q, r),
  λ r. ap decode r.0 ∙ decode-encode bytes r.1,
)
