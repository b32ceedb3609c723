-- ===== src/Text/Base64/Groups.antt =====
-- The loop of `decode` over the characters of an encoding, group by group, both ways.
use workpane.Prelude.{
  ℕ, ◌+◌, ◌-◌, ◌*◌, ◌/◌, ◌%◌, ◌^◌, ◌<◌, ◌≡◌, inl, inr, none, some, arith, refl, List, [], ◌∷◌, ◌++◌,
  All, Option-cases, append_assoc, ap, ◌∙◌, sym, ◌==◌, leb, if◌then◌else◌,
}
use workpane.Text.Base64.{alphabet, sextet, value, shift_in, encode, decode_loop}
use workpane.Text.Base64.Digits.{
  alphabet-value, second_byte, third_byte, fourth_byte, rest_four, rest_two,
}

abbrev pub IsByte : ℕ → Type 0
IsByte b = b < 256

-- The characters of an encoding before its padding, and the padding behind a text of digits.
abbrev pub digits : List ℕ → List ℕ
digits [] = []
digits (a ∷ []) = sextet (a * 2 ^ 16) 18 ∷ sextet (a * 2 ^ 16) 12 ∷ []
digits (a ∷ b ∷ []) =
    let bits = a * 2 ^ 16 + b * 2 ^ 8 in sextet bits 18 ∷ sextet bits 12 ∷ sextet bits 6 ∷ []
digits (a ∷ b ∷ c ∷ bytes) =
    let bits = a * 2 ^ 16 + b * 2 ^ 8 + c in
    sextet bits 18 ∷ sextet bits 12 ∷ sextet bits 6 ∷ sextet bits 0 ∷ digits bytes

abbrev pub padding : List ℕ → List ℕ
padding [] = []
padding (a ∷ []) = []
padding (a ∷ b ∷ []) = b'=' ∷ b'=' ∷ []
padding (a ∷ b ∷ c ∷ []) = b'=' ∷ []
padding (a ∷ b ∷ c ∷ d ∷ text) = padding text

pub encode-digits : (bytes : List ℕ) → encode bytes ≡ digits bytes ++ padding (digits bytes)
unfolding encode
encode-digits [] = refl
encode-digits (a ∷ []) = refl
encode-digits (a ∷ b ∷ []) = refl
encode-digits (a ∷ b ∷ c ∷ bytes) = cc (encode-digits bytes)

-- One round of the loop in each of its four phases.
module _ (c d b : ℕ) (text out : List ℕ) (e : value c ≡ some d) where
  loop_first : decode_loop (c ∷ text) b 0 out ≡ decode_loop text (shift_in b d) 6 out
  unfolding decode_loop
  loop_first = rw (e, decode_loop)

  loop_second :
      decode_loop (c ∷ text) b 6 out
      ≡ decode_loop text (shift_in b d) 4 (out ++ (shift_in b d / 2 ^ 4 % 256 ∷ []))
  unfolding decode_loop
  loop_second = rw (e, decode_loop)

  loop_third :
      decode_loop (c ∷ text) b 4 out
      ≡ decode_loop text (shift_in b d) 2 (out ++ (shift_in b d / 2 ^ 2 % 256 ∷ []))
  unfolding decode_loop
  loop_third = rw (e, decode_loop)

  loop_fourth :
      decode_loop (c ∷ text) b 2 out
      ≡ decode_loop text (shift_in b d) 0 (out ++ (shift_in b d / 2 ^ 0 % 256 ∷ []))
  unfolding decode_loop
  loop_fourth = rw (e, decode_loop)

decode_loop-none :
    (c b k : ℕ) (text out : List ℕ) → value c ≡ none → decode_loop (c ∷ text) b k out ≡ none
unfolding decode_loop
decode_loop-none c b k text out e = rw (e, decode_loop)

decode_loop-some :
    (c b k d : ℕ) (text out : List ℕ)
    → value c ≡ some d
    → decode_loop (c ∷ text) b k out
      ≡ decode_loop text
          (shift_in b d)
          (if leb 8 (k + 6) then k + 6 - 8 else k + 6)
          (if leb 8 (k + 6) then out ++ (shift_in b d / 2 ^ (k + 6 - 8) % 256 ∷ []) else out)
unfolding decode_loop
decode_loop-some c b k d text out e = rw (e, decode_loop)

abbrev pub IsDigit : ℕ → Type 0
IsDigit c = (d : ℕ) × (value c ≡ some d) × (alphabet d ≡ c) × (d < 64)

-- Every character that the loop passes is a digit.
pub decode_loop-IsDigit :
    (text : List ℕ) (b k : ℕ) (out : List ℕ) {r : List ℕ}
    → decode_loop text b k out ≡ some r
    → All IsDigit text
decode_loop-IsDigit [] b k out h = tt
decode_loop-IsDigit (c ∷ text) b k out h = elim (Option-cases (value c)) [
  | inl e ↦ absurd (cc (decode_loop-none c b k text out e, h))
  | inr (d, e) ↦ (
    (d, e, (alphabet-value c d e).0, (alphabet-value c d e).1),
    decode_loop-IsDigit text _ _ _ (sym (decode_loop-some c b k d text out e) ∙ h),
  )
]

-- The three ends of a group: four digits, three and two.
module _ (c₀ c₁ d₀ d₁ b : ℕ) (out : List ℕ) (e₀ : value c₀ ≡ some d₀) (e₁ : value c₁ ≡ some d₁)
    (h₀ : d₀ < 64) (h₁ : d₁ < 64) where
  pub loop_pair :
      (text : List ℕ)
      → decode_loop (c₀ ∷ c₁ ∷ text) b 0 out
        ≡ decode_loop text (shift_in (shift_in b d₀) d₁) 4 (out ++ ((d₀ * 4 + d₁ / 16) ∷ []))
  loop_pair text =
      loop_first c₀ d₀ b (c₁ ∷ text) out e₀
      ∙ loop_second c₁ d₁ (shift_in b d₀) text out e₁
      ∙ rw (second_byte b d₀ d₁ h₀ h₁)

  pub loop_two :
      decode_loop (c₀ ∷ c₁ ∷ []) b 0 out
      ≡ (if d₁ % 16 == 0 then some (out ++ ((d₀ * 4 + d₁ / 16) ∷ [])) else none)
  loop_two =
      loop_pair [] ∙ unfold decode_loop in rw (rest_four (shift_in b d₀) d₁ h₁) (ground arith)

  module _ (c₂ d₂ : ℕ) (e₂ : value c₂ ≡ some d₂) (h₂ : d₂ < 64) where
    loop_triple :
        (text : List ℕ)
        → decode_loop (c₀ ∷ c₁ ∷ c₂ ∷ text) b 0 out
          ≡ decode_loop text
              (shift_in (shift_in (shift_in b d₀) d₁) d₂)
              2
              (out ++ ((d₀ * 4 + d₁ / 16) ∷ (d₁ % 16 * 16 + d₂ / 4) ∷ []))
    loop_triple text =
        loop_pair (c₂ ∷ text)
        ∙ loop_third c₂ d₂ (shift_in (shift_in b d₀) d₁) text _ e₂
        ∙ rw (third_byte (shift_in b d₀) d₁ d₂ h₁ h₂)
            (ap (decode_loop text _ 2) (append_assoc out _ _))

    pub loop_three : decode_loop (c₀ ∷ c₁ ∷ c₂ ∷ []) b 0 out ≡ (
        if d₂ % 4 == 0
        then some (out ++ ((d₀ * 4 + d₁ / 16) ∷ (d₁ % 16 * 16 + d₂ / 4) ∷ []))
        else none)
    loop_three =
        loop_triple []
        ∙ unfold decode_loop in rw (rest_two (shift_in (shift_in b d₀) d₁) d₂ h₂) (ground arith)

    pub loop_four :
        (c₃ d₃ : ℕ) (text : List ℕ)
        → value c₃ ≡ some d₃
        → d₃ < 64
        → decode_loop (c₀ ∷ c₁ ∷ c₂ ∷ c₃ ∷ text) b 0 out
          ≡ decode_loop text
              (shift_in (shift_in (shift_in (shift_in b d₀) d₁) d₂) d₃)
              0
              (out ++ ((d₀ * 4 + d₁ / 16) ∷ (d₁ % 16 * 16 + d₂ / 4) ∷ (d₂ % 4 * 64 + d₃) ∷ []))
    loop_four c₃ d₃ text e₃ h₃ =
        loop_triple (c₃ ∷ text)
        ∙ loop_fourth c₃ d₃ (shift_in (shift_in (shift_in b d₀) d₁) d₂) text _ e₃
        ∙ rw (fourth_byte (shift_in (shift_in b d₀) d₁) d₂ d₃ h₂ h₃)
            (ap (decode_loop text _ 0) (append_assoc out _ _))
