-- ===== src/Text/Utf8/Sequences.antt =====
-- One sequence of bytes that the loop of `valid` accepts is the encoding of one scalar value.
use workpane.Prelude.{
  ℕ, zero, suc, ◌+◌, ◌-◌, ◌*◌, ◌<◌, ◌≤◌, ◌≡◌, inl, List, [], ◌∷◌, ◌++◌, arith, length, drop, true,
  lt→ltb, le→ltb,
}
use workpane.Text.Utf8.{sequence_length, follows, all_follow}
use workpane.Text.Utf8.Encoding.{encode, IsScalar}

-- `encode` by the bit fields of its argument.
encode_two :
    (h l : ℕ) → 2 ≤ h → h < 32 → l < 64 → encode (h * 64 + l) ≡ (0xC0 + h) ∷ (0x80 + l) ∷ []
unfolding encode
encode_two h l p q r = ground arith

encode_three :
    (h m l : ℕ)
    → h < 16
    → m < 64
    → l < 64
    → 0x20 ≤ h * 64 + m
    → encode (h * 4096 + m * 64 + l) ≡ (0xE0 + h) ∷ (0x80 + m) ∷ (0x80 + l) ∷ []
unfolding encode
encode_three h m l p q r s = rw (le→ltb (h * 4096 + m * 64 + l) 0x80 (omega arith)) (
    rw (le→ltb (h * 4096 + m * 64 + l) 0x800 (omega arith))
      (rw (lt→ltb (h * 4096 + m * 64 + l) 0x10000 (omega arith)) (ground arith)))

encode_four :
    (h k m l : ℕ)
    → k < 64
    → m < 64
    → l < 64
    → 0x10 ≤ h * 64 + k
    → encode (h * 262144 + k * 4096 + m * 64 + l)
      ≡ (0xF0 + h) ∷ (0x80 + k) ∷ (0x80 + m) ∷ (0x80 + l) ∷ []
unfolding encode
encode_four h k m l o q r s = rw (le→ltb (h * 262144 + k * 4096 + m * 64 + l) 0x80 (omega arith)) (
    rw (le→ltb (h * 262144 + k * 4096 + m * 64 + l) 0x800 (omega arith))
      (rw (le→ltb (h * 262144 + k * 4096 + m * 64 + l) 0x10000 (omega arith)) (ground arith)))

-- What an announced length says of the lead byte.
lead_one : (lead : ℕ) → sequence_length lead ≡ 1 → lead < 0x80
unfolding sequence_length
lead_one lead h = ground arith

lead_two : (lead : ℕ) → sequence_length lead ≡ 2 → (0xC2 ≤ lead) × (lead ≤ 0xDF)
unfolding sequence_length
lead_two lead h = ground arith

lead_three : (lead : ℕ) → sequence_length lead ≡ 3 → (0xE0 ≤ lead) × (lead ≤ 0xEF)
unfolding sequence_length
lead_three lead h = ground arith

lead_four : (lead : ℕ) → sequence_length lead ≡ 4 → (0xF0 ≤ lead) × (lead ≤ 0xF4)
unfolding sequence_length
lead_four lead h = ground arith

no_more : (lead n : ℕ) → sequence_length lead ≡ suc (suc (suc (suc (suc n)))) → ⊥
unfolding sequence_length
no_more lead n h = ground arith

-- What the test of a byte says of it.
follows_two : (lead b : ℕ) → lead ≤ 0xDF → follows lead 1 b ≡ true → (0x80 ≤ b) × (b ≤ 0xBF)
unfolding follows
follows_two lead b h k = ground arith

follows_three :
    (lead b : ℕ)
    → 0xE0 ≤ lead
    → lead ≤ 0xEF
    → follows lead 1 b ≡ true
    → (0x80 ≤ b) × (b ≤ 0xBF) × (lead ≡ 0xE0 → 0xA0 ≤ b) × (lead ≡ 0xED → b ≤ 0x9F)
unfolding follows
follows_three lead b h k e = ground arith

follows_four :
    (lead b : ℕ)
    → 0xF0 ≤ lead
    → follows lead 1 b ≡ true
    → (0x80 ≤ b) × (b ≤ 0xBF) × (lead ≡ 0xF0 → 0x90 ≤ b) × (lead ≡ 0xF4 → b ≤ 0x8F)
unfolding follows
follows_four lead b h e = ground arith

follows_later : (lead o b : ℕ) → follows lead (suc (suc o)) b ≡ true → (0x80 ≤ b) × (b ≤ 0xBF)
unfolding follows
follows_later lead o b e = ground arith

all_follow-cons :
    (lead o n b : ℕ) (bytes : List ℕ)
    → all_follow lead o (suc n) (b ∷ bytes) ≡ true
    → (follows lead o b ≡ true) × (all_follow lead (suc o) n bytes ≡ true)
unfolding all_follow
all_follow-cons lead o n b bytes h = ground arith

abbrev pub Decodes : ℕ → ℕ → List ℕ → Type 0
Decodes lead n bytes = (c : ℕ) × IsScalar c × (encode c ++ drop n bytes ≡ lead ∷ bytes)

Decodes-one : (lead : ℕ) (bytes : List ℕ) → sequence_length lead ≡ 1 → Decodes lead 0 bytes
unfolding encode
Decodes-one lead bytes e =
    let h = lead_one lead e in (lead, inl (omega arith), rw (lt→ltb lead 0x80 h))

Decodes-two :
    (lead b : ℕ) (bytes : List ℕ)
    → sequence_length lead ≡ 2
    → all_follow lead 1 1 (b ∷ bytes) ≡ true
    → Decodes lead 1 (b ∷ bytes)
Decodes-two lead b bytes e f =
    let l = lead_two lead e in
    let t = all_follow-cons lead 1 0 b bytes f in
    let r = follows_two lead b l.1 t.0 in
    (
      (lead - 0xC0) * 64 + (b - 0x80),
      inl (omega arith),
      rw (encode_two (lead - 0xC0) (b - 0x80) (omega arith) (omega arith) (omega arith))
          (ground arith),
    )

Decodes-three :
    (lead b b' : ℕ) (bytes : List ℕ)
    → sequence_length lead ≡ 3
    → all_follow lead 1 2 (b ∷ b' ∷ bytes) ≡ true
    → Decodes lead 2 (b ∷ b' ∷ bytes)
Decodes-three lead b b' bytes e f =
    let l = lead_three lead e in
    let t = all_follow-cons lead 1 1 b (b' ∷ bytes) f in
    let u = all_follow-cons lead 2 0 b' bytes t.1 in
    let r = follows_three lead b l.0 l.1 t.0 in
    let q = follows_later lead 0 b' u.0 in
    (
      (lead - 0xE0) * 4096 + (b - 0x80) * 64 + (b' - 0x80),
      ground arith,
      rw
          (encode_three (lead - 0xE0) (b - 0x80) (b' - 0x80) (omega arith) (omega arith)
            (omega arith) (ground arith))
          (ground arith),
    )

Decodes-four :
    (lead b b' b'' : ℕ) (bytes : List ℕ)
    → sequence_length lead ≡ 4
    → all_follow lead 1 3 (b ∷ b' ∷ b'' ∷ bytes) ≡ true
    → Decodes lead 3 (b ∷ b' ∷ b'' ∷ bytes)
Decodes-four lead b b' b'' bytes e f =
    let l = lead_four lead e in
    let t = all_follow-cons lead 1 2 b (b' ∷ b'' ∷ bytes) f in
    let u = all_follow-cons lead 2 1 b' (b'' ∷ bytes) t.1 in
    let v = all_follow-cons lead 3 0 b'' bytes u.1 in
    let r = follows_four lead b l.0 t.0 in
    let q = follows_later lead 0 b' u.0 in
    let s = follows_later lead 1 b'' v.0 in
    (
      (lead - 0xF0) * 262144 + (b - 0x80) * 4096 + (b' - 0x80) * 64 + (b'' - 0x80),
      ground arith,
      rw
          (encode_four (lead - 0xF0) (b - 0x80) (b' - 0x80) (b'' - 0x80) (omega arith) (omega arith)
            (omega arith) (ground arith))
          (ground arith),
    )

-- A sequence that the loop accepts decodes to a scalar value.
pub sequence-Decodes :
    (lead n : ℕ) (bytes : List ℕ)
    → sequence_length lead ≡ suc n
    → n ≤ length bytes
    → all_follow lead 1 n bytes ≡ true
    → Decodes lead n bytes
sequence-Decodes lead zero bytes e h f = Decodes-one lead bytes e
sequence-Decodes lead (suc zero) [] e h f = elim h [ ]
sequence-Decodes lead (suc zero) (b ∷ bytes) e h f = Decodes-two lead b bytes e f
sequence-Decodes lead (suc (suc zero)) [] e h f = elim h [ ]
sequence-Decodes lead (suc (suc zero)) (b ∷ []) e h f = absurd (omega arith)
sequence-Decodes lead (suc (suc zero)) (b ∷ b' ∷ bytes) e h f = Decodes-three lead b b' bytes e f
sequence-Decodes lead (suc (suc (suc zero))) [] e h f = elim h [ ]
sequence-Decodes lead (suc (suc (suc zero))) (b ∷ []) e h f = absurd (omega arith)
sequence-Decodes lead (suc (suc (suc zero))) (b ∷ b' ∷ []) e h f = absurd (omega arith)
sequence-Decodes lead (suc (suc (suc zero))) (b ∷ b' ∷ b'' ∷ bytes) e h f =
    Decodes-four lead b b' b'' bytes e f
sequence-Decodes lead (suc (suc (suc (suc n)))) bytes e h f = absurd (no_more lead n e)
