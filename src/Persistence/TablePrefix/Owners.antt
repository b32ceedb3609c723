-- ===== src/Persistence/TablePrefix/Owners.antt =====
-- A table has at most one owner.
use workpane.Prelude.{
  ℕ, ◌≡◌, refl, ap₂, true, false, [], ◌∷◌, ◌++◌, Option, none, some, ◌==◌, if◌then◌else◌, arith,
  Bool-cases, inl, inr,
}
use workpane.Prelude.Bytes.{Bytes, starts_with, last_or}
use workpane.Scripting.Identifier.{double_hyphen, identifier_byte, all_bytes, valid}
use workpane.Persistence.TablePrefix.{underscored, table_prefix, owned}

-- What is left of an identifier behind some of its bytes.
record IsRest (text : Bytes) : Type 0 where
  spelled : all_bytes text ≡ true
  single : double_hyphen text ≡ false
  closed : (last_or text 0 == b'-') ≡ false

last_or_tail :
    (text : Bytes) (x : ℕ) → (last_or text x == b'-') ≡ false → (last_or text 0 == b'-') ≡ false
last_or_tail [] x h = refl
last_or_tail (y ∷ text) x h = h

double_hyphen_tail :
    (x : ℕ) (text : Bytes) → double_hyphen (x ∷ text) ≡ false → double_hyphen text ≡ false
double_hyphen_tail x [] h = refl
double_hyphen_tail x (y ∷ text) h = ground (arith, h)

IsRest-behind : (x : ℕ) (text : Bytes) → IsRest (x ∷ text) → IsRest text
IsRest-behind x text r = record {
  spelled = ground (arith, r.spelled);
  single = double_hyphen_tail x text r.single;
  closed = last_or_tail text x r.closed;
}

abbrev spelled_as : ℕ → ℕ
spelled_as x = if x == b'-' then b'_' else x

spelled_as_injective :
    (x y z : ℕ)
    → identifier_byte x ≡ true
    → identifier_byte y ≡ true
    → (spelled_as x == z) ≡ true
    → (spelled_as y == z) ≡ true
    → x ≡ y
spelled_as_injective x y z h g e f = ground arith

hyphen_only :
    (x : ℕ) → identifier_byte x ≡ true → (spelled_as x == b'_') ≡ true → (x == b'-') ≡ true
hyphen_only x h e = ground arith

-- The end of one prefix does not stand where another identifier goes on.
apart :
    (y : ℕ) (text name : Bytes)
    → IsRest (y ∷ text)
    → starts_with (b'_' ∷ b'_' ∷ []) name ≡ true
    → starts_with (underscored (y ∷ text) ++ b'_' ∷ b'_' ∷ []) name ≡ false
apart y [] [] r h = refl
apart y (z ∷ text) [] r h = refl
apart y [] (a ∷ name) r h = elim (Bool-cases (spelled_as y == a)) [
  | inl e ↦ absurd (ground (arith, h, e, r.spelled, r.closed))
  | inr e ↦ ground (arith, e)
]
apart y (z ∷ text) (a ∷ []) r h = ground (arith, h)
apart y (z ∷ text) (a ∷ b ∷ name) r h = ground (arith, h, r.spelled, r.single)

unique :
    (a b name : Bytes)
    → IsRest a
    → IsRest b
    → starts_with (underscored a ++ b'_' ∷ b'_' ∷ []) name ≡ true
    → starts_with (underscored b ++ b'_' ∷ b'_' ∷ []) name ≡ true
    → a ≡ b
unique [] [] name r s h g = refl
unique [] (y ∷ b) name r s h g = absurd (cc (apart y b name s h, g))
unique (x ∷ a) [] name r s h g = absurd (cc (apart x a name r g, h))
unique (x ∷ a) (y ∷ b) [] r s h g = absurd (cc h)
unique (x ∷ a) (y ∷ b) (z ∷ name) r s h g =
    ap₂ (λ (i : ℕ) (l : Bytes). i ∷ l)
      (spelled_as_injective x y z (ground (arith, r.spelled)) (ground (arith, s.spelled))
        (ground (arith, h)) (ground (arith, g)))
      (unique a b name (IsRest-behind x a r) (IsRest-behind y b s) (ground (arith, h))
        (ground (arith, g)))

valid-IsRest : (id : Bytes) → valid id ≡ true → IsRest id
unfolding valid
valid-IsRest [] h = absurd (cc h)
valid-IsRest (x ∷ text) h = record {
  spelled = ground (arith, h);
  single = ground (arith, h);
  closed = ground (arith, h);
}

-- A name that the tables of two plugins could have, by their prefixes, belongs to one plugin: the
-- identifiers are the same.
pub owned_unique :
    (a b : Bytes) (name : Option Bytes)
    → valid a ≡ true
    → valid b ≡ true
    → owned name (table_prefix a) ≡ true
    → owned name (table_prefix b) ≡ true
    → a ≡ b
unfolding owned table_prefix
owned_unique a b none h g e f = absurd (cc e)
owned_unique a b (some name) h g e f =
    unique a b name (valid-IsRest a h) (valid-IsRest b g) (ground (arith, e)) (ground (arith, f))
