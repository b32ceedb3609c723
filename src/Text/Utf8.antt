-- ===== src/Text/Utf8.antt =====
-- src/text/Utf8Helper.cpp: the rules of UTF-8 by which the product reads bytes. A text is the list
-- of its bytes, and a position in it is the list that is left from there on.
pub mod Encoding
pub mod Sequences
pub mod Shapes
pub mod Validity
pub mod Truncation
pub mod Examples
use workpane.Prelude.{
  ℕ, zero, suc, ◌-◌, Bool, true, false, ◌&&◌, ◌||◌, not, List, [], ◌∷◌, length, take, drop, ltb,
  leb, ◌==◌, between, if◌then◌else◌, ◌+◌, min,
}

-- The length that a lead byte announces; 0 refuses the byte.
unfoldable pub sequence_length : ℕ → ℕ
sequence_length lead =
    if ltb lead 0x80
    then 1
    else if leb 0xC2 lead && leb lead 0xDF
    then 2
    else if leb 0xE0 lead && leb lead 0xEF
    then 3
    else if leb 0xF0 lead && leb lead 0xF4
    then 4
    else 0

-- Whether a byte may stand at an offset behind its lead byte.
unfoldable pub follows : ℕ → ℕ → ℕ → Bool
follows lead offset byte =
    if ltb 1 offset
      || not (lead == 0xE0) && not (lead == 0xED) && not (lead == 0xF0) && not (lead == 0xF4)
    then leb 0x80 byte && leb byte 0xBF
    else if lead == 0xE0
    then leb 0xA0 byte && leb byte 0xBF
    else if lead == 0xED
    then leb 0x80 byte && leb byte 0x9F
    else if lead == 0xF0
    then leb 0x90 byte && leb byte 0xBF
    else leb 0x80 byte && leb byte 0x8F

-- The inner loop of `valid`: `rounds` bytes at the offsets from `offset` on.
unfoldable pub all_follow : ℕ → ℕ → ℕ → List ℕ → Bool
all_follow lead offset zero bytes = true
all_follow lead offset (suc rounds) [] = false
all_follow lead offset (suc rounds) (byte ∷ bytes) =
    let rest = all_follow lead (suc offset) rounds bytes in
    if follows lead offset byte then rest else false

-- The outer loop, whose rounds are bounded by the bytes that are left.
unfoldable pub valid_loop : ℕ → List ℕ → Bool
valid_loop fuel [] = true
valid_loop zero (lead ∷ bytes) = false
valid_loop (suc fuel) (lead ∷ bytes) =
    let count = sequence_length lead in
    let rest = valid_loop fuel (drop count (lead ∷ bytes)) in
    if count == 0 || ltb (length (lead ∷ bytes)) count
    then false
    else if all_follow lead 1 (count - 1) bytes
    then rest
    else false

unfoldable pub valid : List ℕ → Bool
valid text = valid_loop (length text) text

-- The loop of `truncated`, over what is left of the text behind `index`.
unfoldable pub truncated_index : ℕ → List ℕ → ℕ → ℕ
truncated_index zero left index = index
truncated_index (suc characters) [] index = index
truncated_index (suc characters) (lead ∷ bytes) index =
    let step = if sequence_length lead == 0 then 1 else sequence_length lead in
    truncated_index characters (drop step (lead ∷ bytes)) (index + step)

unfoldable pub truncated : List ℕ → ℕ → List ℕ
truncated text characters = take (min (truncated_index characters text 0) (length text)) text
