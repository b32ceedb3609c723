-- ===== src/Process/ProcessText.antt =====
-- `ProcessText` of src/process/ProcessText.cpp: whole characters out of the bytes that a program
-- writes, however they are cut into reads. A position in the pending bytes is the list that is left.
pub mod Steps
pub mod Streaming
pub mod Reads
pub mod Passing
pub mod Examples
use workpane.Prelude.{
  ℕ, zero, suc, ◌+◌, Bool, true, false, ◌&&◌, List, [], ◌∷◌, ◌++◌, length, take, drop, ltb, ◌==◌,
  if◌then◌else◌,
}
use workpane.Text.Utf8.{sequence_length, follows}

pub record ProcessText : Type 0 where
  pub pending : List ℕ

abbrev pub initial : ProcessText
initial = record { pending = [] }

-- U+FFFD in UTF-8.
abbrev pub replacement : List ℕ
replacement = 0xEF ∷ 0xBF ∷ 0xBD ∷ []

-- The inner loop: how many bytes of the sequence match, over the bytes behind the matched ones.
unfoldable pub matched_on : ℕ → ℕ → ℕ → List ℕ → ℕ
matched_on lead count matched [] = matched
matched_on lead count matched (byte ∷ bytes) =
    let more = matched_on lead count (suc matched) bytes in
    if ltb matched count && follows lead matched byte then more else matched

unfoldable pub matched_of : ℕ → List ℕ → ℕ
matched_of lead bytes =
    let count = sequence_length lead in if count == 0 then 0 else matched_on lead count 1 bytes

-- A character of so many bytes, the end of what arrived, or so many bytes that are not UTF-8.
pub data Step : Type 0 where
  whole : ℕ → Step
  wait : Step
  replaced : ℕ → Step

unfoldable pub decide : ℕ → ℕ → ℕ → Step
decide count matched size =
    if ltb 0 count && matched == count
    then whole count
    else if ltb 0 count && matched == size
    then wait
    else replaced (if matched == 0 then 1 else matched)

unfoldable pub next : ℕ → List ℕ → Step
next lead bytes = decide (sequence_length lead) (matched_of lead bytes) (suc (length bytes))

abbrev pub prepend : List ℕ → List ℕ × List ℕ → List ℕ × List ℕ
prepend text (assembled, left) = (text ++ assembled, left)

-- The outer loop: what is assembled, and what stays pending. Each round takes a byte or more.
unfoldable pub assemble : ℕ → List ℕ → List ℕ × List ℕ
assemble fuel [] = ([], [])
assemble zero (lead ∷ bytes) = ([], lead ∷ bytes)
assemble (suc fuel) (lead ∷ bytes) = elim (next lead bytes) [
  | whole n ↦ prepend (take n (lead ∷ bytes)) (assemble fuel (drop n (lead ∷ bytes)))
  | wait ↦ ([], lead ∷ bytes)
  | replaced n ↦ prepend replacement (assemble fuel (drop n (lead ∷ bytes)))
]

unfoldable pub take_bytes : List ℕ → ProcessText → ProcessText × List ℕ
take_bytes bytes p =
    let arrived = p.pending ++ bytes in
    let (text, left) = assemble (length arrived) arrived in (record { pending = left }, text)

unfoldable pub finish : ProcessText → ProcessText × List ℕ
finish p = elim p.pending [ [] ↦ (p, []) | lead ∷ bytes ↦ (record { pending = [] }, replacement) ]
