-- ===== src/Http/Resolver/Decoding.antt =====
-- Percent escapes.
use workpane.Prelude.{
  ℕ, ◌+◌, ◌*◌, ◌≡◌, ◌↔◌, refl, sym, ◌∙◌, ap, Bool, true, false, ◌&&◌, [], ◌∷◌, Option, none, some,
  ◌==◌, Bool-cases, inl, inr, arith, if◌then◌else◌, subst,
}
use workpane.Prelude.Bytes.{Bytes}
use workpane.Http.Resolver.{is_hex, hex, follow, decode}

-- A path spells a text where each byte stands for itself, but the percent sign, which stands with two
-- hexadecimal digits for the byte of their value.
pub data Spells : Bytes → Bytes → Type 0 where
  nothing : Spells [] []
  plain :
      {x : ℕ} {path text : Bytes}
      → (x == b'%') ≡ false
      → Spells path text
      → Spells (x ∷ path) (x ∷ text)
  escape :
      {a b : ℕ} {path text : Bytes}
      → is_hex a ≡ true
      → is_hex b ≡ true
      → Spells path text
      → Spells (b'%' ∷ a ∷ b ∷ path) ((hex a * 16 + hex b) ∷ text)

follow-some :
    (x : ℕ) (o : Option Bytes) (text : Bytes)
    → follow x o ≡ some text
    → (rest : Bytes) × (o ≡ some rest) × (text ≡ x ∷ rest)
follow-some x none text h = absurd (cc h)
follow-some x (some rest) text h = (rest, refl, cc h)

decode-plain :
    (x : ℕ) (path : Bytes) → (x == b'%') ≡ false → decode (x ∷ path) ≡ follow x (decode path)
unfolding decode
decode-plain x [] e = rw e refl
decode-plain x (a ∷ []) e = rw (e, decode) refl
decode-plain x (a ∷ b ∷ path) e = rw (e, decode) refl

decode-escape :
    (a b : ℕ) (path : Bytes) (c : Bool)
    → (is_hex a && is_hex b) ≡ c
    → decode (b'%' ∷ a ∷ b ∷ path) ≡ (if c then follow (hex a * 16 + hex b) (decode path) else none)
unfolding decode
decode-escape a b path true e = rw (e, decode) refl
decode-escape a b path false e = rw (e, decode) refl

percent : (x : ℕ) → (x == b'%') ≡ true → x ≡ b'%'
percent x e = ground arith

plain_Spells :
    (x : ℕ) (path text : Bytes)
    → (x == b'%') ≡ false
    → ((rest : Bytes) → decode path ≡ some rest → Spells path rest)
    → decode (x ∷ path) ≡ some text
    → Spells (x ∷ path) text
plain_Spells x path text e ih h =
    let (rest, p, q) = follow-some x (decode path) text (sym (decode-plain x path e) ∙ h) in
    subst (Spells (x ∷ path)) (sym q) (plain e (ih rest p))

escape_Spells :
    (a b : ℕ) (path text : Bytes)
    → ((rest : Bytes) → decode path ≡ some rest → Spells path rest)
    → decode (b'%' ∷ a ∷ b ∷ path) ≡ some text
    → Spells (b'%' ∷ a ∷ b ∷ path) text
escape_Spells a b path text ih h = elim (Bool-cases (is_hex a && is_hex b)) [
  | inr c ↦ absurd (cc (sym (decode-escape a b path false c) ∙ h))
  | inl c ↦
      let (rest, p, q) =
        follow-some (hex a * 16 + hex b) (decode path) text
          (sym (decode-escape a b path true c) ∙ h) in
      subst (Spells (b'%' ∷ a ∷ b ∷ path)) (sym q)
        (escape (ground (arith, c)) (ground (arith, c)) (ih rest p))
]

decode-Spells : (path text : Bytes) → decode path ≡ some text → Spells path text
unfolding decode
decode-Spells [] text h = let p : [] ≡ text = cc h in subst (Spells []) p nothing
decode-Spells (x ∷ []) text h = elim (Bool-cases (x == b'%')) [
  | inr e ↦ plain_Spells x [] text e (decode-Spells []) h
  | inl e ↦ absurd (cc (rw e at h))
]
decode-Spells (x ∷ a ∷ []) text h = elim (Bool-cases (x == b'%')) [
  | inr e ↦ plain_Spells x (a ∷ []) text e (decode-Spells (a ∷ [])) h
  | inl e ↦ absurd (cc (rw (e, decode) at h))
]
decode-Spells (x ∷ a ∷ b ∷ path) text h = elim (Bool-cases (x == b'%')) [
  | inr e ↦ plain_Spells x (a ∷ b ∷ path) text e (decode-Spells (a ∷ b ∷ path)) h
  | inl e ↦
      let p = percent x e in
      subst (λ (y : ℕ). Spells (y ∷ a ∷ b ∷ path) text) (sym p)
        (escape_Spells a b path text (decode-Spells path)
          (subst (λ (y : ℕ). decode (y ∷ a ∷ b ∷ path) ≡ some text) p h))
]

Spells-decode : {path text : Bytes} → Spells path text → decode path ≡ some text
unfolding decode
Spells-decode nothing = refl
Spells-decode (plain {x = x} {path = path} e s) =
    decode-plain x path e ∙ ap (follow x) (Spells-decode s)
Spells-decode (escape {a = a} {b = b} {path = path} g h s) =
    decode-escape a b path true (ground (arith, g, h))
    ∙ ap (follow (hex a * 16 + hex b)) (Spells-decode s)

-- Decoding a path gives a text exactly when the path spells it.
pub decode_iff-Spells : (path text : Bytes) → (decode path ≡ some text) ↔ Spells path text
decode_iff-Spells path text = (decode-Spells path text, Spells-decode)
