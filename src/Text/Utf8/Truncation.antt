-- ===== src/Text/Utf8/Truncation.antt =====
-- `truncated` cuts a valid text at a character boundary.
use workpane.Prelude.{
  ℕ, zero, suc, ◌+◌, ◌≡◌, List, [], ◌∷◌, ◌++◌, arith, length, length-append, take, drop, min,
  take-append, drop-append, All, refl, sym, ◌∙◌, ap, append_assoc, subst, true, suc-eq-zero,
}
use workpane.Text.Utf8.{sequence_length, truncated_index, truncated, valid}
use workpane.Text.Utf8.Encoding.{encode, encode_all, IsScalar}
use workpane.Text.Utf8.Shapes.{shape}
use workpane.Text.Utf8.Validity.{valid-iff-IsEncoding}

encode_all-split :
    (n : ℕ) (cs : List ℕ) → encode_all (take n cs) ++ encode_all (drop n cs) ≡ encode_all cs
unfolding encode_all
encode_all-split zero cs = refl
encode_all-split (suc n) [] = refl
encode_all-split (suc n) (c ∷ cs) =
    append_assoc (encode c) (encode_all (take n cs)) (encode_all (drop n cs))
    ∙ ap (λ (l : List ℕ). encode c ++ l) (encode_all-split n cs)

-- One round of the loop passes over one character.
truncated_index-step :
    (n i : ℕ) (lead : ℕ) (tail rest : List ℕ)
    → sequence_length lead ≡ suc (length tail)
    → truncated_index (suc n) (lead ∷ tail ++ rest) i
      ≡ truncated_index n rest (i + suc (length tail))
unfolding truncated_index
truncated_index-step n i lead tail rest e =
    rw e (rw (suc-eq-zero (length tail)) (rw (drop-append tail rest)))

truncated_index-encode_all :
    (n : ℕ) (cs : List ℕ) (i : ℕ)
    → All IsScalar cs
    → truncated_index n (encode_all cs) i ≡ i + length (encode_all (take n cs))
unfolding encode_all
truncated_index-encode_all zero cs i h = unfold truncated_index in omega arith
truncated_index-encode_all (suc n) [] i h = unfold truncated_index in omega arith
truncated_index-encode_all (suc n) (c ∷ cs) i h =
    let s = shape c h.0 in
    rw s.bytes (
      truncated_index-step n i s.lead s.tail (encode_all cs) s.count
      ∙ truncated_index-encode_all n cs (i + suc (length s.tail)) h.1
      ∙ omega (arith, length-append {0} s.tail (encode_all (take n cs))))

-- Cutting the encoding of a text to n characters gives the encoding of its first n characters: no
-- sequence is ever cut in the middle, and a text of at most n characters comes back whole.
pub truncated-encode_all :
    (cs : List ℕ) (n : ℕ) → All IsScalar cs → truncated (encode_all cs) n ≡ encode_all (take n cs)
unfolding truncated
truncated-encode_all cs n h =
    let whole = encode_all-split n cs in
    rw (truncated_index-encode_all n cs 0 h) (
      subst
        (λ (t : List ℕ).
          take (min (0 + length (encode_all (take n cs))) (length t)) t ≡ encode_all (take n cs))
        whole (rw (seam n cs) (take-append (encode_all (take n cs)) (encode_all (drop n cs)))))
  where
    seam :
        (n : ℕ) (cs : List ℕ)
        → min
            (0 + length (encode_all (take n cs)))
            (length (encode_all (take n cs) ++ encode_all (drop n cs)))
          ≡ length (encode_all (take n cs))
    seam n cs = omega (arith, length-append {0} (encode_all (take n cs)) (encode_all (drop n cs)))

All-take : (n : ℕ) (cs : List ℕ) → All IsScalar cs → All IsScalar (take n cs)
All-take zero cs h = tt
All-take (suc n) [] h = tt
All-take (suc n) (c ∷ cs) h = (h.0, All-take n cs h.1)

-- So a valid text stays valid when it is cut.
pub truncated-valid : (text : List ℕ) (n : ℕ) → valid text ≡ true → valid (truncated text n) ≡ true
truncated-valid text n h =
    let (cs, all, e) = (valid-iff-IsEncoding text).0 h in
    (valid-iff-IsEncoding (truncated text n)).1 (
      take n cs,
      All-take n cs all,
      sym (truncated-encode_all cs n all) ∙ ap (λ (t : List ℕ). truncated t n) e,
    )
