-- ===== src/Process/ProcessText/Steps.antt =====
-- One round of the loop of src/process/ProcessText.cpp.
use workpane.Prelude.{
  ℕ, zero, suc, ◌+◌, ◌≤◌, ◌<◌, ◌≡◌, ◌≢◌, ◌⊎◌, inl, inr, refl, ◌∙◌, ap, true, false, ◌&&◌, List, [],
  ◌∷◌, ◌++◌, length, length-append, take, drop, ltb, ◌==◌, arith, Bool-cases,
}
use workpane.Text.Utf8.{sequence_length, follows}
use workpane.Process.ProcessText.{matched_on, matched_of, Step, whole, wait, replaced, decide, next}

pub take-append_le : (n : ℕ) (xs ys : List ℕ) → n ≤ length xs → take n (xs ++ ys) ≡ take n xs
take-append_le zero xs ys h = refl
take-append_le (suc n) [] ys h = absurd (omega (arith, h))
take-append_le (suc n) (x ∷ xs) ys h =
    ap (λ (l : List ℕ). x ∷ l) (take-append_le n xs ys (omega (arith, h)))

pub drop-append_le : (n : ℕ) (xs ys : List ℕ) → n ≤ length xs → drop n (xs ++ ys) ≡ drop n xs ++ ys
drop-append_le zero xs ys h = refl
drop-append_le (suc n) [] ys h = absurd (omega (arith, h))
drop-append_le (suc n) (x ∷ xs) ys h = drop-append_le n xs ys (omega (arith, h))

-- The matched bytes are there, and no more than the sequence has.
matched_on_bounds :
    (lead count m : ℕ) (bytes : List ℕ)
    → (m ≤ matched_on lead count m bytes)
      × (matched_on lead count m bytes ≤ m + length bytes)
      × (m ≤ count → matched_on lead count m bytes ≤ count)
unfolding matched_on
matched_on_bounds lead count m [] = (omega arith, omega arith, λ h. h)
matched_on_bounds lead count m (byte ∷ bytes) =
    let (a, b, c) = matched_on_bounds lead count (suc m) bytes in
    elim (Bool-cases (ltb m count && follows lead m byte)) [
      | inl e ↦ rw e (omega (arith, a), omega (arith, b), λ h. c (ground arith))
      | inr e ↦ rw e (omega arith, omega arith, λ h. h)
    ]

-- More bytes behind change nothing once a byte has not matched or the sequence is whole.
matched_on-append :
    (lead count m : ℕ) (bytes more : List ℕ)
    → (matched_on lead count m bytes < m + length bytes) ⊎ (matched_on lead count m bytes ≡ count)
    → matched_on lead count m (bytes ++ more) ≡ matched_on lead count m bytes
unfolding matched_on
matched_on-append lead count m [] [] h = refl
matched_on-append lead count m [] (byte ∷ more) h =
    let e : ltb m count ≡ false = ground arith in rw e refl
matched_on-append lead count m (byte ∷ bytes) more h =
    elim (Bool-cases (ltb m count && follows lead m byte)) [
      | inl e ↦
          let h' = rw e at h in
          rw e (matched_on-append lead count (suc m) bytes more (ground arith))
      | inr e ↦ rw e refl
    ]

size-append : (xs ys : List ℕ) → suc (length (xs ++ ys)) ≡ suc (length xs) + length ys
size-append xs ys = omega (arith, length-append {0} xs ys)

-- What a round uses up when it does not wait.
abbrev pub used : Step → ℕ
used (whole n) = n
used wait = 0
used (replaced n) = n

decide_bounds :
    (count matched size : ℕ)
    → matched ≤ size
    → 1 ≤ size
    → decide count matched size ≢ wait
    → (1 ≤ used (decide count matched size)) × (used (decide count matched size) ≤ size)
unfolding decide
decide_bounds count matched size h g w = elim (Bool-cases (ltb 0 count && matched == count)) [
  | inl e ↦ rw e (ground arith, ground arith)
  | inr e ↦ elim (Bool-cases (ltb 0 count && matched == size)) [
    | inl f ↦ absurd (w (rw (e, f) refl))
    | inr f ↦ rw (e, f) (ground arith, ground arith)
  ]
]

-- A round that does not wait decides the same with more bytes behind.
decide-more :
    (count matched size more : ℕ)
    → matched ≤ size
    → decide count matched size ≢ wait
    → decide count matched (size + more) ≡ decide count matched size
unfolding decide
decide-more count matched size more h w = elim (Bool-cases (ltb 0 count && matched == count)) [
  | inl e ↦ rw e refl
  | inr e ↦ elim (Bool-cases (ltb 0 count && matched == size)) [
    | inl f ↦ absurd (w (rw (e, f) refl))
    | inr f ↦
        let g : (ltb 0 count && matched == size + more) ≡ false = ground arith in rw (e, f, g) refl
  ]
]

-- A sequence that does not wait matches the same bytes with more behind.
matched_of-append :
    (lead : ℕ) (bytes more : List ℕ)
    → next lead bytes ≢ wait
    → (matched_of lead (bytes ++ more) ≡ matched_of lead bytes)
      × (matched_of lead bytes ≤ suc (length bytes))
unfolding matched_of next decide
matched_of-append lead bytes more w = elim (Bool-cases (sequence_length lead == 0)) [
  | inl e ↦ rw e (refl, omega arith)
  | inr e ↦
      let count = sequence_length lead in
      let matched = matched_on lead count 1 bytes in
      let (a, b, c) = matched_on_bounds lead count 1 bytes in
      rw e (
        matched_on-append lead count 1 bytes more (elim (Bool-cases (matched == count)) [
          | inl f ↦ inr (ground arith)
          | inr f ↦ elim (Bool-cases (matched == suc (length bytes))) [
            | inl g ↦ let p : ltb 0 count ≡ true = ground arith in absurd (w (rw (e, f, g, p) refl))
            | inr g ↦ inl (ground arith)
          ]
        ]),
        omega (arith, b),
      )
]

pub next-bounds :
    (lead : ℕ) (bytes : List ℕ)
    → next lead bytes ≢ wait
    → (1 ≤ used (next lead bytes)) × (used (next lead bytes) ≤ length (lead ∷ bytes))
unfolding next
next-bounds lead bytes w =
    decide_bounds (sequence_length lead) (matched_of lead bytes) (suc (length bytes))
      (matched_of-append lead bytes [] w).1 (omega arith) w

pub next-append :
    (lead : ℕ) (bytes more : List ℕ)
    → next lead bytes ≢ wait
    → next lead (bytes ++ more) ≡ next lead bytes
unfolding next
next-append lead bytes more w =
    let (e, h) = matched_of-append lead bytes more w in
    ap (λ m. decide (sequence_length lead) m (suc (length (bytes ++ more)))) e
    ∙ ap (λ n. decide (sequence_length lead) (matched_of lead bytes) n) (size-append bytes more)
    ∙ decide-more (sequence_length lead) (matched_of lead bytes) (suc (length bytes)) (length more)
        h w

decide-wait :
    (count matched size : ℕ)
    → matched ≤ count
    → count ≤ 4
    → decide count matched size ≡ wait
    → size ≤ 3
unfolding decide
decide-wait count matched size h g w = elim (Bool-cases (ltb 0 count && matched == count)) [
  | inl e ↦ let w' = rw e at w in absurd (cc)
  | inr e ↦ elim (Bool-cases (ltb 0 count && matched == size)) [
    | inl f ↦ ground arith
    | inr f ↦ let w' = rw (e, f) at w in absurd (cc)
  ]
]

sequence_length_at_most : (lead : ℕ) → sequence_length lead ≤ 4
unfolding sequence_length
sequence_length_at_most lead = ground arith

matched_of_at_most : (lead : ℕ) (bytes : List ℕ) → matched_of lead bytes ≤ sequence_length lead
unfolding matched_of
matched_of_at_most lead bytes = elim (Bool-cases (sequence_length lead == 0)) [
  | inl e ↦ rw e (omega arith)
  | inr e ↦ rw e ((matched_on_bounds lead (sequence_length lead) 1 bytes).2 (ground arith))
]

-- Only the beginning of a character waits.
pub next-wait : (lead : ℕ) (bytes : List ℕ) → next lead bytes ≡ wait → length (lead ∷ bytes) ≤ 3
unfolding next
next-wait lead bytes w =
    decide-wait (sequence_length lead) (matched_of lead bytes) (suc (length bytes))
      (matched_of_at_most lead bytes) (sequence_length_at_most lead) w
