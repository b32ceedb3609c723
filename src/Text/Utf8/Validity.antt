-- ===== src/Text/Utf8/Validity.antt =====
-- `valid` decides whether a text is the encoding of a sequence of scalar values.
use workpane.Prelude.{
  ℕ, zero, suc, ◌<◌, ◌≤◌, ◌≡◌, ◌↔◌, List, [], ◌∷◌, ◌++◌, arith, length, length-append, drop, All,
  true, refl, ◌∙◌, ap, drop-append, subst,
}
use workpane.Text.Utf8.{sequence_length, all_follow, valid_loop, valid}
use workpane.Text.Utf8.Encoding.{encode, encode_all, IsScalar, IsEncoding}
use workpane.Text.Utf8.Sequences.{sequence-Decodes}
use workpane.Text.Utf8.Shapes.{shape}

-- One round of the loop over a sequence that fits.
valid_loop-step :
    (fuel lead n : ℕ) (bytes : List ℕ)
    → sequence_length lead ≡ suc n
    → n ≤ length bytes
    → all_follow lead 1 n bytes ≡ true
    → valid_loop (suc fuel) (lead ∷ bytes) ≡ valid_loop fuel (drop n bytes)
unfolding valid_loop
valid_loop-step fuel lead n bytes e h k = rw e (ground arith)

-- What one round that is passed has seen.
valid_loop-inv :
    (fuel lead : ℕ) (bytes : List ℕ)
    → valid_loop (suc fuel) (lead ∷ bytes) ≡ true
    → (n : ℕ) × (sequence_length lead ≡ suc n)
      × (n ≤ length bytes)
      × (all_follow lead 1 n bytes ≡ true)
      × (valid_loop fuel (drop n bytes) ≡ true)
unfolding valid_loop
valid_loop-inv fuel lead bytes h = go (sequence_length lead) refl
  where
    go :
        (k : ℕ)
        → sequence_length lead ≡ k
        → (n : ℕ) × (sequence_length lead ≡ suc n)
          × (n ≤ length bytes)
          × (all_follow lead 1 n bytes ≡ true)
          × (valid_loop fuel (drop n bytes) ≡ true)
    go zero e = cc (rw e at h)
    go (suc n) e = let h' = rw e at h in (n, e, ground arith, ground arith, ground arith)

sequence_length_one : (c : ℕ) → c < 0x80 → sequence_length c ≡ 1
unfolding sequence_length
sequence_length_one c h = ground arith

sequence_length_two : (c : ℕ) → 0xC2 ≤ c → c ≤ 0xDF → sequence_length c ≡ 2
unfolding sequence_length
sequence_length_two c h k = ground arith

sequence_length_three : (c : ℕ) → 0xE0 ≤ c → c ≤ 0xEF → sequence_length c ≡ 3
unfolding sequence_length
sequence_length_three c h k = ground arith

sequence_length_four : (c : ℕ) → 0xF0 ≤ c → c ≤ 0xF4 → sequence_length c ≡ 4
unfolding sequence_length
sequence_length_four c h k = ground arith

valid_loop-zero : (lead : ℕ) (bytes : List ℕ) → valid_loop zero (lead ∷ bytes) ≡ true → ⊥
unfolding valid_loop
valid_loop-zero lead bytes h = cc

-- Whatever the rounds left, a text that the loop accepts is an encoding.
valid_loop_sound : (fuel : ℕ) (text : List ℕ) → valid_loop fuel text ≡ true → IsEncoding text
unfolding encode_all
valid_loop_sound fuel [] h = ([], tt, refl)
valid_loop_sound zero (lead ∷ bytes) h = absurd (valid_loop-zero lead bytes h)
valid_loop_sound (suc fuel) (lead ∷ bytes) h =
    let r = valid_loop-inv fuel lead bytes h in
    let d = sequence-Decodes lead r.0 bytes r.1 r.2 r.3 in
    let t = valid_loop_sound fuel (drop r.0 bytes) r.4 in
    (d.0 ∷ t.0, (d.1, t.1), ap (λ (l : List ℕ). encode d.0 ++ l) t.2 ∙ d.2)

-- With a round for each byte, every encoding is accepted.
valid_loop_complete :
    (fuel : ℕ) (cs : List ℕ)
    → All IsScalar cs
    → length (encode_all cs) ≤ fuel
    → valid_loop fuel (encode_all cs) ≡ true
unfolding encode_all
valid_loop_complete zero [] h k = unfold valid_loop in refl
valid_loop_complete (suc fuel) [] h k = unfold valid_loop in refl
valid_loop_complete zero (c ∷ cs) h k =
    let s = shape c h.0 in absurd (omega (arith, rw s.bytes at k))
valid_loop_complete (suc fuel) (c ∷ cs) h k =
    let s = shape c h.0 in
    let k' = rw s.bytes at k in
    rw s.bytes (
      valid_loop-step fuel s.lead (length s.tail) (s.tail ++ encode_all cs) s.count
        (omega (arith, length-append {0} s.tail (encode_all cs))) (s.follow (encode_all cs))
      ∙ rw (drop-append s.tail (encode_all cs)) (
          valid_loop_complete fuel cs h.1
            (omega (arith, k', length-append {0} s.tail (encode_all cs)))))

-- `valid` accepts exactly the encodings of sequences of Unicode scalar values: no overlong form, no
-- surrogate, no value beyond U+10FFFF and no sequence that is cut short passes, and nothing else is
-- refused.
pub valid-iff-IsEncoding : (text : List ℕ) → (valid text ≡ true) ↔ IsEncoding text
unfolding valid
valid-iff-IsEncoding text = (
  valid_loop_sound (length text) text,
  λ e.
      subst (λ (t : List ℕ). valid_loop (length t) t ≡ true) e.2
        (valid_loop_complete (length (encode_all e.0)) e.0 e.1 (omega arith)),
)
