-- ===== src/Localization/Catalogs/Owners.antt =====
-- The prefixes of two owners never meet in one key.
use workpane.Prelude.{
  ℕ, Bool, true, false, ◌||◌, [], ◌∷◌, ◌≡◌, refl, ap₂, ◌==◌, Bool-cases, inl, inr, arith,
}
use workpane.Prelude.Bytes.{Bytes, starts_with, holds_byte, last_or}
use workpane.Localization.Words.{all_lowercase, lowercase_word, valid_owner}
use workpane.Localization.Catalogs.{prefix_of}

all_lowercase-holds_byte :
    (hyphen : Bool) (owner : Bytes)
    → all_lowercase hyphen owner ≡ true
    → holds_byte b'.' owner ≡ false
unfolding all_lowercase
all_lowercase-holds_byte hyphen [] h = refl
all_lowercase-holds_byte hyphen (x ∷ owner) h =
    ground (arith, all_lowercase-holds_byte hyphen owner)

lowercase_word-holds_byte :
    (owner : Bytes) → lowercase_word owner true ≡ true → holds_byte b'.' owner ≡ false
unfolding lowercase_word
lowercase_word-holds_byte [] h = refl
lowercase_word-holds_byte (x ∷ owner) h = elim (Bool-cases (x == b'-' || last_or owner x == b'-')) [
  | inl e ↦ let h' = rw e at h in absurd (cc)
  | inr e ↦ all_lowercase-holds_byte true (x ∷ owner) (rw e at h)
]

prefix_unique :
    (a b key : Bytes)
    → holds_byte b'.' a ≡ false
    → holds_byte b'.' b ≡ false
    → starts_with (prefix_of a) key ≡ true
    → starts_with (prefix_of b) key ≡ true
    → a ≡ b
prefix_unique [] [] key f g h k = refl
prefix_unique [] (y ∷ b) [] f g h k = cc
prefix_unique [] (y ∷ b) (x ∷ key) f g h k = absurd (ground arith)
prefix_unique (y ∷ a) [] [] f g h k = cc
prefix_unique (y ∷ a) [] (x ∷ key) f g h k = absurd (ground arith)
prefix_unique (y ∷ a) (z ∷ b) [] f g h k = cc
prefix_unique (y ∷ a) (z ∷ b) (x ∷ key) f g h k =
    ap₂ (λ (u : ℕ) (v : Bytes). u ∷ v) (ground arith)
      (prefix_unique a b key (ground arith) (ground arith) (ground arith) (ground arith))

-- A key that begins with the prefixes of two valid owners shows that they are one.
pub valid_owner_unique :
    (a b key : Bytes)
    → valid_owner a ≡ true
    → valid_owner b ≡ true
    → starts_with (prefix_of a) key ≡ true
    → starts_with (prefix_of b) key ≡ true
    → a ≡ b
unfolding valid_owner
valid_owner_unique a b key f g h k =
    prefix_unique a b key (lowercase_word-holds_byte a f) (lowercase_word-holds_byte b g) h k
