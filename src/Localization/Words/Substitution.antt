-- ===== src/Localization/Words/Substitution.antt =====
-- Arguments put into a sentence, and the language that is resolved.
use workpane.Prelude.{
  ℕ, ◌-◌, ◌<◌, ◌≡◌, refl, ap, true, false, List, [], ◌∷◌, length, ltb, ◌==◌, All, arith, Bool-cases,
  inl, inr, subst, sym, ==_iff,
}
use workpane.Prelude.Bytes.{Bytes}
use workpane.Localization.Words.{
  insert_number, is_placeholder, placeholders_from, placeholders, substitute, supported_language,
  any_language, base_language, normalize_locale, english, resolve_language,
}

All-insert_number :
    (P : ℕ → Type 0) (n : ℕ) (numbers : List ℕ)
    → All P (insert_number n numbers)
    → P n × All P numbers
unfolding insert_number
All-insert_number P n [] h = h
All-insert_number P n (m ∷ numbers) h = elim (Bool-cases (n == m)) [
  | inl e ↦ let h' = rw e at h in (subst P (sym ((==_iff n m).0 e)) h'.0, h')
  | inr e ↦ elim (Bool-cases (ltb n m)) [
    | inl f ↦ rw (e, f) at h
    | inr f ↦
        let h' = rw (e, f) at h in
        let (p, rest) = All-insert_number P n numbers h'.1 in (p, (h'.0, rest))
  ]
]

All-placeholders_from :
    (P : ℕ → Type 0) (numbers : List ℕ) (text : Bytes)
    → All P (placeholders_from numbers text)
    → All P numbers
unfolding placeholders_from
All-placeholders_from P numbers [] h = h
All-placeholders_from P numbers (x ∷ []) h = h
All-placeholders_from P numbers (x ∷ y ∷ text) h = elim (Bool-cases (is_placeholder x y)) [
  | inl e ↦
      (All-insert_number P (y - b'0') numbers
        (All-placeholders_from P (insert_number (y - b'0') numbers) (y ∷ text) (rw e at h))).1
  | inr e ↦ All-placeholders_from P numbers (y ∷ text) (rw e at h)
]

substitute-from :
    (arguments : List Bytes) (numbers : List ℕ) (text : Bytes)
    → All (λ n. length arguments < n) (placeholders_from numbers text)
    → substitute text arguments ≡ text
unfolding placeholders_from substitute
substitute-from arguments numbers [] h = refl
substitute-from arguments numbers (x ∷ []) h = refl
substitute-from arguments numbers (x ∷ y ∷ text) h = elim (Bool-cases (is_placeholder x y)) [
  | inl e ↦
      let h' = rw e at h in
      let beyond =
        (All-insert_number (λ n. length arguments < n) (y - b'0') numbers
          (All-placeholders_from (λ n. length arguments < n) (insert_number (y - b'0') numbers)
            (y ∷ text) h')).0 in
      let f : ltb (y - b'1') (length arguments) ≡ false = ground arith in
      rw (e, f, substitute)
        (ap (λ (l : Bytes). x ∷ l)
          (substitute-from arguments (insert_number (y - b'0') numbers) (y ∷ text) h'))
  | inr e ↦
      rw (e, substitute)
        (ap (λ (l : Bytes). x ∷ l) (substitute-from arguments numbers (y ∷ text) (rw e at h)))
]

-- A sentence that spells no argument among the given ones, by their numbers from 1, is left as it is.
pub substitute-placeholders :
    (text : Bytes) (arguments : List Bytes)
    → All (λ n. length arguments < n) (placeholders text)
    → substitute text arguments ≡ text
unfolding placeholders
substitute-placeholders text arguments h = substitute-from arguments [] text h

english_supported : supported_language english ≡ true
unfolding supported_language any_language
english_supported = refl

-- What is resolved is a language that can be selected.
pub supported_language-resolve_language :
    (system : Bytes) → supported_language (resolve_language system) ≡ true
unfolding resolve_language
supported_language-resolve_language system =
    let normalized = normalize_locale system in
    elim (Bool-cases (supported_language normalized)) [
      | inl e ↦ rw e e
      | inr e ↦ elim (Bool-cases (supported_language (base_language normalized))) [
        | inl f ↦ rw (e, f) f
        | inr f ↦ rw (e, f) english_supported
      ]
    ]
