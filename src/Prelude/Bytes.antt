-- ===== src/Prelude/Bytes.antt =====
-- Texts as lists of bytes: literals, equality, prefixes and cuts.
use Prim.Native.Char.{code}
use Prim.Native.String.{String}
use Prim.Native.Nat.{ℕ}
use mathlib.Core.Path.{◌≡◌, refl, ap₂}
use mathlib.Core.Logic.{◌↔◌}
use mathlib.Core.Bool.{Bool, true, false, ◌&&◌, ◌||◌}
use mathlib.Core.Option.{Option, none, some}
use mathlib.Core.List.{List, [], ◌∷◌, ◌++◌}
use native.Mathlib.Omega.{arith}
use workpane.Prelude.Tests.{◌==◌, if◌then◌else◌}

abbrev pub Bytes : Type 0
Bytes = List ℕ

-- The bytes of an ASCII literal.
abbrev pub codes : String → Bytes
codes String.[] = []
codes (String.◌∷◌ c s) = code c ∷ codes s

abbrev pub same : Bytes → Bytes → Bool
same [] [] = true
same [] (y ∷ ys) = false
same (x ∷ xs) [] = false
same (x ∷ xs) (y ∷ ys) = x == y && same xs ys

pub same-eq : (xs ys : Bytes) → same xs ys ≡ true → xs ≡ ys
same-eq [] [] h = refl
same-eq [] (y ∷ ys) h = cc
same-eq (x ∷ xs) [] h = cc
same-eq (x ∷ xs) (y ∷ ys) h =
    ap₂ (λ (z : ℕ) (zs : Bytes). z ∷ zs) (ground arith) (same-eq xs ys (ground arith))

pub same_refl : (xs : Bytes) → same xs xs ≡ true
same_refl [] = refl
same_refl (x ∷ xs) = ground (arith, same_refl xs)

pub same_iff : (xs ys : Bytes) → (same xs ys ≡ true) ↔ (xs ≡ ys)
same_iff xs ys = (same-eq xs ys, λ e. rw (← e) (same_refl xs))

-- `text.starts_with(prefix)`.
abbrev pub starts_with : Bytes → Bytes → Bool
starts_with [] text = true
starts_with (p ∷ prefix) [] = false
starts_with (p ∷ prefix) (x ∷ text) = p == x && starts_with prefix text

-- `text.find(byte)`: what stands before the first such byte, and what behind it.
abbrev pub cut : ℕ → Bytes → Bytes × Option Bytes
cut byte [] = ([], none)
cut byte (x ∷ text) =
    let (before, behind) = cut byte text in
    if x == byte then ([], some text) else (x ∷ before, behind)

abbrev pub holds_byte : ℕ → Bytes → Bool
holds_byte byte [] = false
holds_byte byte (x ∷ text) = x == byte || holds_byte byte text

abbrev pub last_or : Bytes → ℕ → ℕ
last_or [] d = d
last_or (x ∷ text) d = last_or text x

pub starts_with-append : (p t : Bytes) → starts_with p (p ++ t) ≡ true
starts_with-append [] t = refl
starts_with-append (x ∷ p) t = ground (arith, starts_with-append p t)

pub starts_with-rest : (p t : Bytes) → starts_with p t ≡ true → (rest : Bytes) × (t ≡ p ++ rest)
starts_with-rest [] t h = (t, refl)
starts_with-rest (x ∷ p) [] h = cc
starts_with-rest (x ∷ p) (y ∷ t) h =
    let (rest, e) = starts_with-rest p t (ground arith) in
    (rest, ap₂ (λ (z : ℕ) (zs : Bytes). z ∷ zs) (ground arith) e)
