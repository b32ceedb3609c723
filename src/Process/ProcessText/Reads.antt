-- ===== src/Process/ProcessText/Reads.antt =====
-- Several reads of a program, and one read of all that they brought.
use workpane.Prelude.{
  ℕ, zero, suc, ◌≤◌, ◌≡◌, inl, inr, refl, sym, ◌∙◌, ap, List, [], ◌∷◌, ◌++◌, length, length-append,
  drop, arith, append_assoc, append-nil,
}
use workpane.Process.ProcessText.{ProcessText, next, prepend, assemble, take_bytes}
use workpane.Process.ProcessText.Steps.{used, next-bounds, next-wait}
use workpane.Process.ProcessText.Streaming.{
  assemble-fuel, assemble-left, assemble-append, resume, wait-cases, assemble_waits, assemble_goes,
  left_shorter,
}

abbrev assemble_all : List ℕ → List ℕ × List ℕ
assemble_all bytes = assemble (length bytes) bytes

assemble_all-append :
    (bytes more : List ℕ)
    → assemble_all (bytes ++ more)
      ≡ prepend (assemble_all bytes).0 (assemble_all ((assemble_all bytes).1 ++ more))
assemble_all-append bytes more =
    let fuel = length (bytes ++ more) in
    let left = (assemble_all bytes).1 in
    assemble-append fuel bytes more (omega arith)
    ∙ ap (λ (p : List ℕ × List ℕ). resume fuel more p)
        (assemble-fuel fuel (length bytes) bytes (omega (arith, length-append {0} bytes more))
          (omega arith))
    ∙ ap (λ (p : List ℕ × List ℕ). prepend (assemble_all bytes).0 p)
        (assemble-fuel fuel (length (left ++ more)) (left ++ more)
          (omega (
            arith,
            length-append {0} bytes more,
            length-append {0} left more,
            assemble-left (length bytes) bytes,
          ))
          (omega arith))

abbrev outcome : List ℕ × List ℕ → ProcessText × List ℕ
outcome (text, left) = (record { pending = left }, text)

-- `text` comes before what a later read answers.
abbrev pub behind : List ℕ → ProcessText × List ℕ → ProcessText × List ℕ
behind text (p, more) = (p, text ++ more)

take_bytes-append :
    (bytes more : List ℕ) (p : ProcessText)
    → take_bytes (bytes ++ more) p
      ≡ behind (take_bytes bytes p).1 (take_bytes more (take_bytes bytes p).0)
unfolding take_bytes
take_bytes-append bytes more p =
    ap (λ (l : List ℕ). outcome (assemble_all l)) (sym (append_assoc p.pending bytes more))
    ∙ ap outcome (assemble_all-append (p.pending ++ bytes) more)

-- One read after the other.
unfoldable pub reads : List ℕ → List (List ℕ) → ProcessText → ProcessText × List ℕ
reads first [] p = take_bytes first p
reads first (second ∷ rest) p =
    let (q, text) = take_bytes first p in behind text (reads second rest q)

unfoldable pub concat : List (List ℕ) → List ℕ
concat [] = []
concat (bytes ∷ rest) = bytes ++ concat rest

append-concat_nil :
    (bytes : List ℕ) (p : ProcessText) → take_bytes bytes p ≡ take_bytes (bytes ++ []) p
append-concat_nil bytes p = ap (λ (l : List ℕ). take_bytes l p) (sym (append-nil bytes))

-- Bytes that arrive in any number of reads give together the text, and leave pending the bytes, that
-- one read of all of them gives and leaves.
pub reads-concat :
    (first : List ℕ) (rest : List (List ℕ)) (p : ProcessText)
    → reads first rest p ≡ take_bytes (first ++ concat rest) p
unfolding reads concat
reads-concat first [] p = append-concat_nil first p
reads-concat first (second ∷ rest) p =
    ap (λ x. behind (take_bytes first p).1 x) (reads-concat second rest (take_bytes first p).0)
    ∙ sym (take_bytes-append first (second ++ concat rest) p)

assemble-left_bound :
    (fuel : ℕ) (bytes : List ℕ) → length bytes ≤ fuel → length (assemble fuel bytes).1 ≤ 3
unfolding assemble
assemble-left_bound fuel [] h = omega arith
assemble-left_bound zero (lead ∷ bytes) h = absurd (omega (arith, h))
assemble-left_bound (suc fuel) (lead ∷ bytes) h = elim (wait-cases (next lead bytes)) [
  | inl e ↦ rw (assemble_waits fuel lead bytes e) (next-wait lead bytes e)
  | inr w ↦
      let s = next lead bytes in
      rw (assemble_goes fuel lead bytes s refl w) (
        assemble-left_bound fuel (drop (used s) (lead ∷ bytes))
          (left_shorter lead bytes (used s) fuel (next-bounds lead bytes w).0 h))
]

-- A read leaves at most three bytes pending.
pub take_bytes-pending :
    (bytes : List ℕ) (p : ProcessText) → length (take_bytes bytes p).0.pending ≤ 3
unfolding take_bytes
take_bytes-pending bytes p =
    assemble-left_bound (length (p.pending ++ bytes)) (p.pending ++ bytes) (omega arith)
