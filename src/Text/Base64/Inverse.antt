-- ===== src/Text/Base64/Inverse.antt =====
-- `decode_loop` inverts the digits of an encoding, and accepts nothing else.
use workpane.Prelude.{
  ℕ, ◌+◌, ◌*◌, ◌/◌, ◌%◌, ◌^◌, ◌<◌, ◌≡◌, ◌≢◌, some, arith, refl, List, [], ◌∷◌, ◌++◌, length, All,
  append-nil, append_assoc, ap, ap₂, ◌∙◌, sym,
}
use workpane.Text.Base64.{alphabet, sextet, value, decode_loop}
use workpane.Text.Base64.Digits.{value-alphabet}
use workpane.Text.Base64.Groups.{
  IsByte, digits, IsDigit, decode_loop-IsDigit, loop_two, loop_three, loop_four,
}

abbrev sextet_at : ℕ → ℕ → ℕ
sextet_at bits shift = bits / 2 ^ shift % 64

value-sextet : (bits shift : ℕ) → value (sextet bits shift) ≡ some (sextet_at bits shift)
unfolding sextet
value-sextet bits shift = value-alphabet (sextet_at bits shift) (omega arith)

-- The digits of an encoding decode to its bytes.
pub decode_loop-digits :
    (bytes : List ℕ) (b : ℕ) (out : List ℕ)
    → All IsByte bytes
    → decode_loop (digits bytes) b 0 out ≡ some (out ++ bytes)
decode_loop-digits [] b out h = unfold decode_loop in rw append-nil
decode_loop-digits (x ∷ []) b out h =
    let bits = x * 2 ^ 16 in
    loop_two _ _ (sextet_at bits 18) (sextet_at bits 12) b out (value-sextet bits 18)
      (value-sextet bits 12) (omega arith) (omega arith)
    ∙ ground arith
decode_loop-digits (x ∷ y ∷ []) b out h =
    let bits = x * 2 ^ 16 + y * 2 ^ 8 in
    loop_three _ _ (sextet_at bits 18) (sextet_at bits 12) b out (value-sextet bits 18)
      (value-sextet bits 12) (omega arith) (omega arith) _ (sextet_at bits 6) (value-sextet bits 6)
      (omega arith)
    ∙ ground arith
decode_loop-digits (x ∷ y ∷ z ∷ bytes) b out h =
    let bits = x * 2 ^ 16 + y * 2 ^ 8 + z in
    loop_four _ _ (sextet_at bits 18) (sextet_at bits 12) b out (value-sextet bits 18)
      (value-sextet bits 12) (omega arith) (omega arith) _ (sextet_at bits 6) (value-sextet bits 6)
      (omega arith) _ (sextet_at bits 0) (digits bytes) (value-sextet bits 0) (omega arith)
    ∙ decode_loop-digits bytes _ _ h.1.1.1
    ∙ ap some (append_assoc out _ bytes ∙ ap (λ (l : List ℕ). out ++ l) (ground arith))

-- What the loop returns is the decoding of the text that it read, with the padding that is due.
pub record Decoded (text out result : List ℕ) : Type 0 where
  pub bytes : List ℕ
  pub appended : result ≡ out ++ bytes
  pub encoded : digits bytes ≡ text
  pub in_range : All IsByte bytes

-- The digits of one, two or three bytes are the characters that they came from.
digits_two :
    (d₀ d₁ : ℕ)
    → d₀ < 64
    → d₁ % 16 ≡ 0
    → d₁ < 64
    → digits ((d₀ * 4 + d₁ / 16) ∷ []) ≡ alphabet d₀ ∷ alphabet d₁ ∷ []
unfolding sextet
digits_two d₀ d₁ h k l = ap₂ (λ (x y : ℕ). alphabet x ∷ alphabet y ∷ []) (omega arith) (omega arith)

digits_three :
    (d₀ d₁ d₂ : ℕ)
    → d₀ < 64
    → d₁ < 64
    → d₂ % 4 ≡ 0
    → d₂ < 64
    → digits ((d₀ * 4 + d₁ / 16) ∷ (d₁ % 16 * 16 + d₂ / 4) ∷ [])
      ≡ alphabet d₀ ∷ alphabet d₁ ∷ alphabet d₂ ∷ []
unfolding sextet
digits_three d₀ d₁ d₂ h k l m =
    ap₂ (λ (x : ℕ) (r : List ℕ). alphabet x ∷ r) (omega arith)
      (ap₂ (λ (x y : ℕ). alphabet x ∷ alphabet y ∷ []) (omega arith) (omega arith))

digits_four :
    (d₀ d₁ d₂ d₃ : ℕ) (rest : List ℕ)
    → d₀ < 64
    → d₁ < 64
    → d₂ < 64
    → d₃ < 64
    → digits ((d₀ * 4 + d₁ / 16) ∷ (d₁ % 16 * 16 + d₂ / 4) ∷ (d₂ % 4 * 64 + d₃) ∷ rest)
      ≡ alphabet d₀ ∷ alphabet d₁ ∷ alphabet d₂ ∷ alphabet d₃ ∷ digits rest
unfolding sextet
digits_four d₀ d₁ d₂ d₃ rest h k l m =
    ap₂ (λ (x : ℕ) (r : List ℕ). alphabet x ∷ r) (omega arith)
      (ap₂ (λ (x : ℕ) (r : List ℕ). alphabet x ∷ r) (omega arith)
        (ap₂ (λ (x y : ℕ). alphabet x ∷ alphabet y ∷ digits rest) (omega arith) (omega arith)))

Decoded-two :
    (c₀ c₁ b : ℕ) (out result : List ℕ)
    → IsDigit c₀
    → IsDigit c₁
    → decode_loop (c₀ ∷ c₁ ∷ []) b 0 out ≡ some result
    → Decoded (c₀ ∷ c₁ ∷ []) out result
Decoded-two c₀ c₁ b out result (d₀, e₀, a₀, h₀) (d₁, e₁, a₁, h₁) h =
    let e = sym (loop_two c₀ c₁ d₀ d₁ b out e₀ e₁ h₀ h₁) ∙ h in
    record {
      bytes = (d₀ * 4 + d₁ / 16) ∷ [];
      appended = ground arith;
      encoded = digits_two d₀ d₁ h₀ (ground arith) h₁ ∙ ap₂ (λ (x y : ℕ). x ∷ y ∷ []) a₀ a₁;
      in_range = omega arith;
    }

Decoded-three :
    (c₀ c₁ c₂ b : ℕ) (out result : List ℕ)
    → IsDigit c₀
    → IsDigit c₁
    → IsDigit c₂
    → decode_loop (c₀ ∷ c₁ ∷ c₂ ∷ []) b 0 out ≡ some result
    → Decoded (c₀ ∷ c₁ ∷ c₂ ∷ []) out result
Decoded-three c₀ c₁ c₂ b out result (d₀, e₀, a₀, h₀) (d₁, e₁, a₁, h₁) (d₂, e₂, a₂, h₂) h =
    let e = sym (loop_three c₀ c₁ d₀ d₁ b out e₀ e₁ h₀ h₁ c₂ d₂ e₂ h₂) ∙ h in
    record {
      bytes = (d₀ * 4 + d₁ / 16) ∷ (d₁ % 16 * 16 + d₂ / 4) ∷ [];
      appended = ground arith;
      encoded = digits_three d₀ d₁ d₂ h₀ h₁ (ground arith) h₂ ∙ cc;
      in_range = omega arith;
    }

-- A whole group in front of a decoded text.
Decoded-group :
    (c₀ c₁ c₂ c₃ d₀ d₁ d₂ d₃ : ℕ) (text out result : List ℕ)
    → d₀ < 64
    → d₁ < 64
    → d₂ < 64
    → d₃ < 64
    → alphabet d₀ ≡ c₀
    → alphabet d₁ ≡ c₁
    → alphabet d₂ ≡ c₂
    → alphabet d₃ ≡ c₃
    → Decoded text
        (out ++ ((d₀ * 4 + d₁ / 16) ∷ (d₁ % 16 * 16 + d₂ / 4) ∷ (d₂ % 4 * 64 + d₃) ∷ []))
        result
    → Decoded (c₀ ∷ c₁ ∷ c₂ ∷ c₃ ∷ text) out result
Decoded-group c₀ c₁ c₂ c₃ d₀ d₁ d₂ d₃ text out result h₀ h₁ h₂ h₃ a₀ a₁ a₂ a₃ r = record {
  bytes = (d₀ * 4 + d₁ / 16) ∷ (d₁ % 16 * 16 + d₂ / 4) ∷ (d₂ % 4 * 64 + d₃) ∷ r.bytes;
  appended = r.appended ∙ append_assoc out _ r.bytes;
  encoded = digits_four d₀ d₁ d₂ d₃ r.bytes h₀ h₁ h₂ h₃ ∙ cc (r.encoded);
  in_range = (omega arith, (omega arith, (omega arith, r.in_range)));
}

-- A text that the loop accepts in its first phase, of a length that is not 1 modulo 4, is the digits
-- of the bytes that it returns.
pub decode_loop-Decoded :
    (text : List ℕ) (b : ℕ) (out : List ℕ) (result : List ℕ)
    → length text % 4 ≢ 1
    → decode_loop text b 0 out ≡ some result
    → Decoded text out result
decode_loop-Decoded [] b out result n h = record {
  bytes = [];
  appended = rw append-nil (unfold decode_loop in ground arith);
  encoded = refl;
  in_range = tt;
}
decode_loop-Decoded (c₀ ∷ []) b out result n h = absurd (n refl)
decode_loop-Decoded (c₀ ∷ c₁ ∷ []) b out result n h =
    let (s₀, (s₁, _)) = decode_loop-IsDigit (c₀ ∷ c₁ ∷ []) b 0 out h in
    Decoded-two c₀ c₁ b out result s₀ s₁ h
decode_loop-Decoded (c₀ ∷ c₁ ∷ c₂ ∷ []) b out result n h =
    let (s₀, (s₁, (s₂, _))) = decode_loop-IsDigit (c₀ ∷ c₁ ∷ c₂ ∷ []) b 0 out h in
    Decoded-three c₀ c₁ c₂ b out result s₀ s₁ s₂ h
decode_loop-Decoded (c₀ ∷ c₁ ∷ c₂ ∷ c₃ ∷ text) b out result n h =
    let all = decode_loop-IsDigit (c₀ ∷ c₁ ∷ c₂ ∷ c₃ ∷ text) b 0 out h in
    let (d₀, e₀, a₀, h₀) = all.0 in
    let (d₁, e₁, a₁, h₁) = all.1.0 in
    let (d₂, e₂, a₂, h₂) = all.1.1.0 in
    let (d₃, e₃, a₃, h₃) = all.1.1.1.0 in
    Decoded-group c₀ c₁ c₂ c₃ d₀ d₁ d₂ d₃ text out result h₀ h₁ h₂ h₃ a₀ a₁ a₂ a₃ (
      decode_loop-Decoded text _ _ result (λ m. n (omega arith))
        (sym (loop_four c₀ c₁ d₀ d₁ b out e₀ e₁ h₀ h₁ c₂ d₂ e₂ h₂ c₃ d₃ text e₃ h₃) ∙ h))
