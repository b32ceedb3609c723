-- ===== src/Text/Base64.antt =====
-- src/text/Base64Helper.cpp: the standard Base64 alphabet. A text and its bytes are lists of
-- numbers below 256, and `unsigned int` has 32 bits.
pub mod Digits
pub mod Groups
pub mod Padding
pub mod Inverse
pub mod Decoding
pub mod Examples
use workpane.Prelude.{
  ℕ, zero, suc, ◌+◌, ◌-◌, ◌*◌, ◌/◌, ◌%◌, ◌^◌, Bool, true, false, ◌&&◌, ◌||◌, not, List, [], ◌∷◌,
  ◌++◌, Option, none, some, length, take, drop, ltb, leb, ◌==◌, if◌then◌else◌, get_or,
}

-- `encode`'s alphabet at an index below 64, by the five runs of the string.
unfoldable pub alphabet : ℕ → ℕ
alphabet digit =
    if ltb digit 26
    then b'A' + digit
    else if ltb digit 52
    then b'a' + (digit - 26)
    else if ltb digit 62
    then b'0' + (digit - 52)
    else if digit == 62
    then b'+'
    else b'/'

-- The four characters of a group, whose 24 bits hold three bytes.
unfoldable pub sextet : ℕ → ℕ → ℕ
sextet bits shift = alphabet (bits / 2 ^ shift % 64)

unfoldable pub encode : List ℕ → List ℕ
encode [] = []
encode (first ∷ []) =
    let bits = first * 2 ^ 16 in sextet bits 18 ∷ sextet bits 12 ∷ b'=' ∷ b'=' ∷ []
encode (first ∷ second ∷ []) =
    let bits = first * 2 ^ 16 + second * 2 ^ 8 in
    sextet bits 18 ∷ sextet bits 12 ∷ sextet bits 6 ∷ b'=' ∷ []
encode (first ∷ second ∷ third ∷ bytes) =
    let bits = first * 2 ^ 16 + second * 2 ^ 8 + third in
    sextet bits 18 ∷ sextet bits 12 ∷ sextet bits 6 ∷ sextet bits 0 ∷ encode bytes

-- The digit of a character; `none` stands for -1.
unfoldable pub value : ℕ → Option ℕ
value character =
    if leb b'A' character && leb character b'Z'
    then some (character - b'A')
    else if leb b'a' character && leb character b'z'
    then some (character - b'a' + 26)
    else if leb b'0' character && leb character b'9'
    then some (character - b'0' + 52)
    else if character == b'+'
    then some 62
    else if character == b'/'
    then some 63
    else none

-- `(buffer << 6U) | digit` on an `unsigned int`: the buffer is never cleared, so its oldest bits
-- fall off.
unfoldable pub shift_in : ℕ → ℕ → ℕ
shift_in buffer digit = buffer * 64 % 2 ^ 32 + digit

-- The loop of `decode` over the characters before the padding, and the test behind it.
unfoldable pub decode_loop : List ℕ → ℕ → ℕ → List ℕ → Option (List ℕ)
decode_loop [] buffer bits bytes =
    if ltb 0 bits && not (buffer % 2 ^ bits == 0) then none else some bytes
decode_loop (character ∷ text) buffer bits bytes = elim (value character) [
  | none ↦ none
  | some digit ↦
      let next = shift_in buffer digit in
      decode_loop text next (if leb 8 (bits + 6) then bits + 6 - 8 else bits + 6)
        (if leb 8 (bits + 6) then bytes ++ (next / 2 ^ (bits + 6 - 8) % 256 ∷ []) else bytes)
]

-- `while (length > 0 && text.size() - length < 2 && text[length - 1] == '=') --length;`
unfoldable pub unpadded : ℕ → List ℕ → ℕ → ℕ
unpadded zero text count = count
unpadded (suc fuel) text count =
    let shorter = unpadded fuel text (count - 1) in
    if ltb 0 count && ltb (length text - count) 2 && get_or text (count - 1) 0 == b'='
    then shorter
    else count

unfoldable pub decode : List ℕ → Option (List ℕ)
decode text =
    let count = unpadded (length text) text (length text) in
    if not (length text % 4 == 0) || count % 4 == 1
    then none
    else decode_loop (take count text) 0 0 []
