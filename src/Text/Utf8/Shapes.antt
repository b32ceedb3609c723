-- ===== src/Text/Utf8/Shapes.antt =====
-- The encoding of one scalar value is a sequence that the loop of `valid` accepts.
use workpane.Prelude.{
  ℕ, suc, ◌+◌, ◌/◌, ◌%◌, ◌<◌, ◌≤◌, ◌≡◌, inl, inr, List, [], ◌∷◌, ◌++◌, arith, ltb, length, true,
  refl, lt→ltb, le→ltb, Bool-cases, ltb→lt,
}
use workpane.Text.Utf8.{sequence_length, follows, all_follow}
use workpane.Text.Utf8.Encoding.{encode, IsScalar}

pub record Shape (c : ℕ) : Type 0 where
  pub lead : ℕ
  pub tail : List ℕ
  pub bytes : encode c ≡ lead ∷ tail
  pub count : sequence_length lead ≡ suc (length tail)
  pub follow : (rest : List ℕ) → all_follow lead 1 (length tail) (tail ++ rest) ≡ true

Shape-one : (c : ℕ) → c < 0x80 → Shape c
unfolding encode sequence_length all_follow
Shape-one c h = record {
  lead = c;
  tail = [];
  bytes = rw (lt→ltb c 0x80 h);
  count = ground arith;
  follow = λ rest. refl;
}

follows-two_ok : (lead b : ℕ) → lead ≤ 0xDF → 0x80 ≤ b → b ≤ 0xBF → follows lead 1 b ≡ true
unfolding follows
follows-two_ok lead b h k l = ground arith

follows-later_ok : (lead o b : ℕ) → 0x80 ≤ b → b ≤ 0xBF → follows lead (suc (suc o)) b ≡ true
unfolding follows
follows-later_ok lead o b h k = ground arith

Shape-two : (c : ℕ) → 0x80 ≤ c → c < 0x800 → Shape c
unfolding encode all_follow
Shape-two c h k = record {
  lead = 0xC0 + c / 64;
  tail = (0x80 + c % 64) ∷ [];
  bytes = rw (le→ltb c 0x80 h) (rw (lt→ltb c 0x800 k));
  count = unfold sequence_length in ground arith;
  follow = λ rest.
      rw (follows-two_ok (0xC0 + c / 64) (0x80 + c % 64) (omega arith) (omega arith) (omega arith));
}

follows-three_ok :
    (c : ℕ)
    → 0x800 ≤ c
    → c < 0x10000
    → IsScalar c
    → follows (0xE0 + c / 4096) 1 (0x80 + c / 64 % 64) ≡ true
unfolding follows
follows-three_ok c h k s = ground arith

Shape-three : (c : ℕ) → 0x800 ≤ c → c < 0x10000 → IsScalar c → Shape c
unfolding encode all_follow
Shape-three c h k s = record {
  lead = 0xE0 + c / 4096;
  tail = (0x80 + c / 64 % 64) ∷ (0x80 + c % 64) ∷ [];
  bytes = rw (le→ltb c 0x80 (omega arith)) (rw (le→ltb c 0x800 h) (rw (lt→ltb c 0x10000 k)));
  count = unfold sequence_length in ground arith;
  follow = λ rest.
      rw (follows-three_ok c h k s)
        (rw (follows-later_ok (0xE0 + c / 4096) 0 (0x80 + c % 64) (omega arith) (omega arith)));
}

follows-four_ok :
    (c : ℕ)
    → 0x10000 ≤ c
    → c < 0x110000
    → follows (0xF0 + c / 262144) 1 (0x80 + c / 4096 % 64) ≡ true
unfolding follows
follows-four_ok c h k = ground arith

Shape-four : (c : ℕ) → 0x10000 ≤ c → c < 0x110000 → Shape c
unfolding encode all_follow
Shape-four c h k = record {
  lead = 0xF0 + c / 262144;
  tail = (0x80 + c / 4096 % 64) ∷ (0x80 + c / 64 % 64) ∷ (0x80 + c % 64) ∷ [];
  bytes =
      rw (le→ltb c 0x80 (omega arith))
        (rw (le→ltb c 0x800 (omega arith)) (rw (le→ltb c 0x10000 h)));
  count = unfold sequence_length in ground arith;
  follow = λ rest. rw (follows-four_ok c h k) (
      rw (follows-later_ok (0xF0 + c / 262144) 0 (0x80 + c / 64 % 64) (omega arith) (omega arith))
        (rw (follows-later_ok (0xF0 + c / 262144) 1 (0x80 + c % 64) (omega arith) (omega arith))));
}

pub shape : (c : ℕ) → IsScalar c → Shape c
shape c s = elim (Bool-cases (ltb c 0x80)) [
  | inl h ↦ Shape-one c (ltb→lt c 0x80 h)
  | inr h ↦ elim (Bool-cases (ltb c 0x800)) [
    | inl k ↦ Shape-two c (ground arith) (ltb→lt c 0x800 k)
    | inr k ↦ elim (Bool-cases (ltb c 0x10000)) [
      | inl l ↦ Shape-three c (ground arith) (ltb→lt c 0x10000 l) s
      | inr l ↦ Shape-four c (ground arith) (ground arith)
    ]
  ]
]
