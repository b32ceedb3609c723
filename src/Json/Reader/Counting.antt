-- ===== src/Json/Reader/Counting.antt =====
-- Keys in lists of keys: distinct keys that all stand in a list of the same length are all of them.
use Prim.Native.String.{String}
use package.text.Mathlib.Text.{◌==◌ as str_eq}
use package.text.Mathlib.TextEquality.{eq_iff}
use workpane.Prelude.{
  ◌≡◌, refl, sym, ◌∙◌, ap, subst, inl, inr, Bool-cases, suc, length, true, false, ◌||◌, List, [],
  ◌∷◌, ◌++◌, if◌then◌else◌, arith,
}
use workpane.Json.Reader.{holds}
use workpane.Json.Reader.Steps.{add}

abbrev pub AreDistinct : List String → Type 0
AreDistinct [] = Unit
AreDistinct (x ∷ xs) = (holds x xs ≡ false) × AreDistinct xs

abbrev pub AreAmong : List String → List String → Type 0
AreAmong xs ys = (k : String) → holds k xs ≡ true → holds k ys ≡ true

str_eq_refl : (x : String) → str_eq x x ≡ true
str_eq_refl x = (eq_iff x x).1 refl

pub holds-append :
    (k : String) (xs ys : List String) → holds k (xs ++ ys) ≡ (holds k xs || holds k ys)
unfolding holds
holds-append k [] ys = refl
holds-append k (x ∷ xs) ys = ground (arith, holds-append k xs ys)

pub holds-add :
    (k key : String) (keys : List String) → holds k (add key keys) ≡ (str_eq key k || holds k keys)
unfolding holds
holds-add k key keys = elim (Bool-cases (holds key keys)) [
  | inl h ↦ elim (Bool-cases (str_eq key k)) [
    | inl e ↦
        let q = (eq_iff key k).0 e in rw (h, e) (subst (λ (z : String). holds z keys ≡ true) q h)
    | inr e ↦ rw (h, e) refl
  ]
  | inr h ↦ rw h (ground (arith, holds-append k keys (key ∷ [])))
]

AreDistinct-append :
    (key : String) (keys : List String)
    → holds key keys ≡ false
    → AreDistinct keys
    → AreDistinct (keys ++ key ∷ [])
unfolding holds
AreDistinct-append key [] h d = (refl, tt)
AreDistinct-append key (x ∷ keys) h (d, ds) = elim (Bool-cases (str_eq x key)) [
  | inl e ↦ absurd (ground arith)
  | inr e ↦ elim (Bool-cases (str_eq key x)) [
    | inl e' ↦
        let q = (eq_iff key x).0 e' in
        absurd (
          let r = subst (λ (z : String). str_eq z key ≡ false) (sym q) e in
          let s = str_eq_refl key in cc)
    | inr e' ↦ (
      ground (arith, holds-append x keys (key ∷ [])),
      AreDistinct-append key keys (ground arith) ds,
    )
  ]
]

pub AreDistinct-add :
    (key : String) (keys : List String) → AreDistinct keys → AreDistinct (add key keys)
AreDistinct-add key keys d = elim (Bool-cases (holds key keys)) [
  | inl h ↦ rw h d
  | inr h ↦ rw h (AreDistinct-append key keys h d)
]

-- A list without the first occurrence of a key.
remove : String → List String → List String
remove key [] = []
remove key (y ∷ ys) = let rest = remove key ys in if str_eq y key then ys else y ∷ rest

length-remove :
    (key : String) (ys : List String)
    → holds key ys ≡ true
    → suc (length (remove key ys)) ≡ length ys
unfolding remove holds
length-remove key [] h = absurd (cc)
length-remove key (y ∷ ys) h = elim (Bool-cases (str_eq y key)) [
  | inl e ↦ rw e refl
  | inr e ↦ rw e (ap suc (length-remove key ys (rw e at h)))
]

holds-remove :
    (k key : String) (ys : List String)
    → str_eq key k ≡ false
    → holds k (remove key ys) ≡ holds k ys
unfolding remove holds
holds-remove k key [] n = refl
holds-remove k key (y ∷ ys) n = elim (Bool-cases (str_eq y key)) [
  | inl e ↦
      let q = (eq_iff y key).0 e in
      let m = subst (λ (z : String). str_eq z k ≡ false) (sym q) n in rw (e, m) refl
  | inr e ↦ rw e (ap (λ b. str_eq y k || b) (holds-remove k key ys n))
]

pub AreAmong-length :
    (xs ys : List String) → AreDistinct xs → AreAmong xs ys → length xs ≡ length ys → AreAmong ys xs
unfolding holds
AreAmong-length [] [] d among len k h = h
AreAmong-length [] (y ∷ ys) d among len k h = absurd (ground arith)
AreAmong-length (x ∷ xs) ys (n, d) among len k h = elim (Bool-cases (str_eq x k)) [
  | inl e ↦ rw e refl
  | inr e ↦ rw e (
      AreAmong-length xs (remove x ys) d
        (λ j i. elim (Bool-cases (str_eq x j)) [
          | inl q ↦
              let m = subst (λ (z : String). holds z xs ≡ false) ((eq_iff x j).0 q) n in absurd (cc)
          | inr q ↦ holds-remove j x ys q ∙ among j (rw (q, i) refl)
        ])
        (let m = length-remove x ys (among x (rw (str_eq_refl x) refl)) in ground arith) k
        (holds-remove k x ys e ∙ h))
]
