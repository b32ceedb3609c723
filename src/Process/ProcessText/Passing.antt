-- ===== src/Process/ProcessText/Passing.antt =====
-- What is UTF-8 already passes through.
use workpane.Prelude.{
  ℕ, zero, suc, ◌+◌, ◌-◌, ◌≡◌, inl, inr, refl, ◌∙◌, ap, true, false, ◌||◌, List, [], ◌∷◌, length,
  take, drop, ltb, ◌==◌, arith, Bool-cases, take-append-drop,
}
use workpane.Text.Utf8.{sequence_length, follows, all_follow, valid_loop, valid}
use workpane.Process.ProcessText.{
  initial, matched_on, matched_of, whole, decide, next, prepend, assemble, take_bytes,
}

matched_on-all_follow :
    (lead count m rounds : ℕ) (bytes : List ℕ)
    → m + rounds ≡ count
    → all_follow lead m rounds bytes ≡ true
    → matched_on lead count m bytes ≡ count
unfolding matched_on all_follow
matched_on-all_follow lead count m zero [] e h = omega (arith, e)
matched_on-all_follow lead count m zero (byte ∷ bytes) e h =
    let f : ltb m count ≡ false = ground arith in rw f (omega (arith, e))
matched_on-all_follow lead count m (suc rounds) [] e h = cc
matched_on-all_follow lead count m (suc rounds) (byte ∷ bytes) e h =
    elim (Bool-cases (follows lead m byte)) [
      | inl g ↦
          let f : ltb m count ≡ true = ground arith in
          rw (f, g)
            (matched_on-all_follow lead count (suc m) rounds bytes (omega (arith, e)) (rw g at h))
      | inr g ↦ let h' = rw g at h in absurd (cc)
    ]

next-whole :
    (lead count : ℕ) (bytes : List ℕ)
    → sequence_length lead ≡ count
    → (count == 0) ≡ false
    → all_follow lead 1 (count - 1) bytes ≡ true
    → next lead bytes ≡ whole count
unfolding next matched_of decide
next-whole lead count bytes e f h =
    let p = matched_on-all_follow lead count 1 (count - 1) bytes (ground arith) h in
    rw (e, f, p) (ground arith)

assemble-valid_loop :
    (fuel : ℕ) (bytes : List ℕ) → valid_loop fuel bytes ≡ true → assemble fuel bytes ≡ (bytes, [])
unfolding assemble valid_loop
assemble-valid_loop fuel [] h = refl
assemble-valid_loop zero (lead ∷ bytes) h = cc
assemble-valid_loop (suc fuel) (lead ∷ bytes) h =
    elim (Bool-cases
      (sequence_length lead == 0 || ltb (length (lead ∷ bytes)) (sequence_length lead))) [
        | inl e ↦ let h' = rw (e, valid_loop) at h in absurd (cc)
        | inr e ↦ elim (Bool-cases (all_follow lead 1 (sequence_length lead - 1) bytes)) [
          | inl f ↦
              let n = sequence_length lead in
              let g = next-whole lead n bytes refl (ground arith) f in
              rw (g, assemble)
                (ap (λ (p : List ℕ × List ℕ). prepend (take n (lead ∷ bytes)) p)
                    (assemble-valid_loop fuel (drop n (lead ∷ bytes)) (rw (e, f, valid_loop) at h))
                  ∙ ap (λ (l : List ℕ). (l, [])) (take-append-drop n (lead ∷ bytes)))
          | inr f ↦ let h' = rw (e, f, valid_loop) at h in absurd (cc)
        ]
      ]

-- A text that the UTF-8 check accepts is answered as it is, and nothing of it stays pending.
pub take_bytes-valid :
    (text : List ℕ) → valid text ≡ true → take_bytes text initial ≡ (initial, text)
unfolding take_bytes valid
take_bytes-valid text h =
    ap (λ (p : List ℕ × List ℕ). (record { pending = p.1 }, p.0))
      (assemble-valid_loop (length text) text h)
