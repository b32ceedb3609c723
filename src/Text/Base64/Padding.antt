-- ===== src/Text/Base64/Padding.antt =====
-- What the loop over the padding leaves, from both sides.
use workpane.Prelude.{
  ℕ, zero, suc, ◌+◌, ◌-◌, ◌%◌, ◌<◌, ◌≤◌, ◌≡◌, ◌≢◌, arith, refl, List, [], ◌∷◌, ◌++◌, length, All,
  length-append, get_or, drop, ltb, ◌==◌, ◌&&◌, Bool-cases, inl, inr, ap, ◌∙◌, sym, append-nil, ◌⊎◌,
}
use workpane.Text.Base64.{unpadded}
use workpane.Text.Base64.Groups.{padding}

-- The characters that the loop looks at, when it looks at padding and when it does not.
unpadded-stop :
    (fuel : ℕ) (text : List ℕ) (count : ℕ)
    → get_or text (count - 1) 0 ≢ b'='
    → unpadded fuel text count ≡ count
unfolding unpadded
unpadded-stop zero text count h = refl
unpadded-stop (suc fuel) text count h = ground arith

unpadded-end :
    (fuel : ℕ) (text : List ℕ) (count : ℕ)
    → length text ≡ count + 2
    → unpadded fuel text count ≡ count
unfolding unpadded
unpadded-end zero text count h = refl
unpadded-end (suc fuel) text count h = ground arith

unpadded-pass :
    (fuel : ℕ) (text : List ℕ) (count : ℕ)
    → 0 < count
    → length text < count + 2
    → get_or text (count - 1) 0 ≡ b'='
    → unpadded (suc fuel) text count ≡ unpadded fuel text (count - 1)
unfolding unpadded
unpadded-pass fuel text count h k e = ground arith

get_or-append : (xs ys : List ℕ) (i : ℕ) → get_or (xs ++ ys) (length xs + i) 0 ≡ get_or ys i 0
get_or-append [] ys i = ap (λ (j : ℕ). get_or ys j 0) (omega arith)
get_or-append (x ∷ xs) ys i = get_or-suc (length xs + i) (omega arith) ∙ get_or-append xs ys i
  where
    get_or-suc : (j : ℕ) {k : ℕ} → k ≡ suc j → get_or (x ∷ (xs ++ ys)) k 0 ≡ get_or (xs ++ ys) j 0
    get_or-suc j e = ap (λ (k : ℕ). get_or (x ∷ (xs ++ ys)) k 0) e

get_or-append_lt : (xs ys : List ℕ) (i : ℕ) → i < length xs → get_or (xs ++ ys) i 0 ≡ get_or xs i 0
get_or-append_lt [] ys i h = elim h [ ]
get_or-append_lt (x ∷ xs) ys zero h = refl
get_or-append_lt (x ∷ xs) ys (suc i) h = get_or-append_lt xs ys i (omega arith)

abbrev pub IsUnpadded : List ℕ → Type 0
IsUnpadded = All (λ c. c ≢ b'=')

get_or-IsUnpadded : (xs : List ℕ) (i : ℕ) → IsUnpadded xs → get_or xs i 0 ≢ b'='
get_or-IsUnpadded [] i h = omega arith
get_or-IsUnpadded (x ∷ xs) zero h = h.0
get_or-IsUnpadded (x ∷ xs) (suc i) h = get_or-IsUnpadded xs i h.1

padding_cases :
    (text : List ℕ)
    → (padding text ≡ [])
      ⊎ ((padding text ≡ b'=' ∷ []) × (0 < length text))
      ⊎ (padding text ≡ b'=' ∷ b'=' ∷ [])
padding_cases [] = inl refl
padding_cases (a ∷ []) = inl refl
padding_cases (a ∷ b ∷ []) = inr (inr refl)
padding_cases (a ∷ b ∷ c ∷ []) = inr (inl (refl, omega arith))
padding_cases (a ∷ b ∷ c ∷ d ∷ text) = elim (padding_cases text) [
  | inl e ↦ inl e
  | inr (inl e) ↦ inr (inl (e.0, omega arith))
  | inr (inr e) ↦ inr (inr e)
]

unpadded-one :
    (fuel : ℕ) (text : List ℕ)
    → 0 < length text
    → IsUnpadded text
    → unpadded (suc fuel) (text ++ b'=' ∷ []) (length text + 1) ≡ length text
unpadded-one fuel text p h =
    unpadded-pass fuel (text ++ b'=' ∷ []) (length text + 1) (omega arith)
      (omega (arith, length-append {0} text (b'=' ∷ [])))
      (ap (λ (i : ℕ). get_or (text ++ b'=' ∷ []) i 0) (omega arith)
        ∙ get_or-append text (b'=' ∷ []) 0)
    ∙ ap (unpadded fuel (text ++ b'=' ∷ [])) (omega arith)
    ∙ unpadded-stop fuel (text ++ b'=' ∷ []) (length text) (λ e.
      get_or-IsUnpadded text (length text - 1) h
        (sym (get_or-append_lt text (b'=' ∷ []) (length text - 1) (omega arith)) ∙ e))

unpadded-two :
    (fuel : ℕ) (text : List ℕ)
    → unpadded (suc (suc fuel)) (text ++ b'=' ∷ b'=' ∷ []) (length text + 2) ≡ length text
unpadded-two fuel text =
    unpadded-pass (suc fuel) (text ++ pads) (length text + 2) (omega arith)
      (omega (arith, length-append {0} text pads))
      (ap (λ (i : ℕ). get_or (text ++ pads) i 0) (omega arith) ∙ get_or-append text pads 1)
    ∙ ap (unpadded (suc fuel) (text ++ pads)) (omega arith)
    ∙ unpadded-pass fuel (text ++ pads) (length text + 1) (omega arith)
        (omega (arith, length-append {0} text pads))
        (ap (λ (i : ℕ). get_or (text ++ pads) i 0) (omega arith) ∙ get_or-append text pads 0)
    ∙ ap (unpadded fuel (text ++ pads)) (omega arith)
    ∙ unpadded-end fuel (text ++ pads) (length text) (omega (arith, length-append {0} text pads))
  where
    pads : List ℕ
    pads = b'=' ∷ b'=' ∷ []

-- The padding that is due to a text of digits is taken off whole, and nothing more.
pub unpadded-padding :
    (text : List ℕ)
    → IsUnpadded text
    → (let full = text ++ padding text in unpadded (length full) full (length full)) ≡ length text
unpadded-padding text h = elim (padding_cases text) [
  | inl e ↦
      rw (e, append-nil {0})
        (unpadded-stop (length text) text (length text)
          (get_or-IsUnpadded text (length text - 1) h))
  | inr (inl (e, p)) ↦ rw e (
      ap (λ (n : ℕ). unpadded n (text ++ b'=' ∷ []) n) (length-append text (b'=' ∷ []))
      ∙ ap (λ (n : ℕ). unpadded n (text ++ b'=' ∷ []) (length text + 1)) (omega arith)
      ∙ unpadded-one (length text) text p h)
  | inr (inr e) ↦ rw e (
      ap (λ (n : ℕ). unpadded n (text ++ b'=' ∷ b'=' ∷ []) n)
        (length-append text (b'=' ∷ b'=' ∷ []))
      ∙ ap (λ (n : ℕ). unpadded n (text ++ b'=' ∷ b'=' ∷ []) (length text + 2)) (omega arith)
      ∙ unpadded-two (length text) text)
]

-- What is behind the count that the loop has reached.
pub record Stripped (text : List ℕ) (count : ℕ) : Type 0 where
  pub within : count ≤ length text
  pub few : length text ≤ count + 2
  pub pads : All (λ c. c ≡ b'=') (drop count text)

drop-pred : (xs : List ℕ) (n : ℕ) → n < length xs → drop n xs ≡ get_or xs n 0 ∷ drop (suc n) xs
drop-pred [] n h = elim h [ ]
drop-pred (x ∷ xs) zero h = refl
drop-pred (x ∷ xs) (suc n) h = drop-pred xs n (omega arith)

Stripped-pred :
    (text : List ℕ) (count : ℕ)
    → Stripped text (suc count)
    → length text < suc count + 2
    → get_or text count 0 ≡ b'='
    → Stripped text count
Stripped-pred text count s few e = record {
  within = omega (arith, s.within);
  few = omega arith;
  pads = rw (drop-pred text count s.within) (e, s.pads);
}

pub unpadded-Stripped :
    (fuel : ℕ) (text : List ℕ) (count : ℕ)
    → Stripped text count
    → Stripped text (unpadded fuel text count)
unfolding unpadded
unpadded-Stripped zero text count s = s
unpadded-Stripped (suc fuel) text zero s = s
unpadded-Stripped (suc fuel) text (suc count) s =
    let e : suc count - 1 ≡ count = omega arith in
    rw e
      (elim (Bool-cases
        (ltb 0 (suc count) && ltb (length text - suc count) 2 && get_or text count 0 == b'=')) [
          | inl pass ↦ rw pass (
              unpadded-Stripped fuel text count
                (Stripped-pred text count s (ground arith) (ground arith)))
          | inr stop ↦ rw stop s
        ])

-- Padding characters of the right number are the padding that is due.
pub padding_unique :
    (text pads : List ℕ)
    → All (λ c. c ≡ b'=') pads
    → length pads ≤ 2
    → (length text + length pads) % 4 ≡ 0
    → length text % 4 ≢ 1
    → pads ≡ padding text
padding_unique [] [] h k e n = refl
padding_unique [] (a ∷ []) h k e n = absurd (omega arith)
padding_unique [] (a ∷ b ∷ pads) h k e n = absurd (omega arith)
padding_unique (a ∷ []) pads h k e n = absurd (n refl)
padding_unique (a ∷ b ∷ []) [] h k e n = absurd (omega arith)
padding_unique (a ∷ b ∷ []) (c ∷ []) h k e n = absurd (omega arith)
padding_unique (a ∷ b ∷ []) (c ∷ d ∷ []) h k e n = cc (h.0, h.1.0)
padding_unique (a ∷ b ∷ []) (c ∷ d ∷ x ∷ pads) h k e n = absurd (omega arith)
padding_unique (a ∷ b ∷ c ∷ []) [] h k e n = absurd (omega arith)
padding_unique (a ∷ b ∷ c ∷ []) (x ∷ []) h k e n = cc (h.0)
padding_unique (a ∷ b ∷ c ∷ []) (x ∷ y ∷ pads) h k e n = absurd (omega arith)
padding_unique (a ∷ b ∷ c ∷ d ∷ text) pads h k e n =
    padding_unique text pads h k (omega arith) (λ m. n (omega arith))
