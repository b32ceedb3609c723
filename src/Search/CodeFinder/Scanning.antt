-- ===== src/Search/CodeFinder/Scanning.antt =====
-- What the lines that were read have left in the finder.
use workpane.Prelude.{
  ℕ, suc, ◌+◌, ◌≡◌, refl, sym, ◌∙◌, ap, ap₂, Bool, true, false, not, ◌&&◌, List, [], ◌∷◌, ◌++◌,
  Option, none, some, length, length-append, arith, Bool-cases, Option-cases, inl, inr,
  if◌then◌else◌, append-nil, append_assoc,
}
use workpane.Search.CodeFinder.{DocPos, DocSelection, CodeFinder, push}
use workpane.Search.CodeFinder.Glyphs.{push_all}

abbrev pub is_found : Option ℕ → Bool
is_found none = false
is_found (some i) = true

abbrev pub or_zero : Option ℕ → ℕ
or_zero none = 0
or_zero (some i) = i

abbrev or_last : Option ℕ → Bool → ℕ → Option ℕ
or_last (some i) fits n = some i
or_last none fits n = if fits then some n else none

plus_zero : (i : ℕ) → i ≡ i + 0
plus_zero i = omega arith

module _ (reaches : DocPos → DocPos → Bool) where
  -- The first selection at or behind a place, counted from a number on.
  unfoldable pub first_from : DocPos → ℕ → List DocSelection → Option ℕ
  first_from place i [] = none
  first_from place i (selection ∷ selections) =
      let later = first_from place (i + 1) selections in
      if reaches selection.start place then some i else later

  -- The match being read is the first one at or behind the start of the search, once there is one.
  pub record IsPlaced (f : CodeFinder) : Type 0 where
    pub placed : f.placed ≡ is_found (first_from f.from 0 f.matches)
    pub current : f.current ≡ or_zero (first_from f.from 0 f.matches)

  first_from-append_last :
      (place : DocPos) (i : ℕ) (xs : List DocSelection) (x : DocSelection)
      → first_from place i (xs ++ x ∷ [])
        ≡ or_last (first_from place i xs) (reaches x.start place) (i + length xs)
  unfolding first_from
  first_from-append_last place i [] x =
      ap (λ (n : ℕ). if reaches x.start place then some n else none) (plus_zero i)
  first_from-append_last place i (y ∷ xs) x = elim (Bool-cases (reaches y.start place)) [
    | inl e ↦ rw e refl
    | inr e ↦
        let p : i + suc (length xs) ≡ i + 1 + length xs = omega arith in
        rw (e, p) (first_from-append_last place (i + 1) xs x)
  ]

  push-matches :
      (x : DocSelection) (f : CodeFinder)
      → ((push reaches x f).matches ≡ f.matches ++ x ∷ [])
        × ((push reaches x f).from ≡ f.from)
        × ((push reaches x f).reading ≡ f.reading)
        × ((push reaches x f).active ≡ f.active)
  unfolding push
  push-matches x f = elim (Bool-cases (not f.placed && reaches x.start f.from)) [
    | inl e ↦ rw e (refl, refl, refl, refl)
    | inr e ↦ rw e (refl, refl, refl, refl)
  ]

  push-placing :
      (x : DocSelection) (f : CodeFinder)
      → IsPlaced f
      → ((push reaches x f).placed
          ≡ is_found (
              or_last
                (first_from f.from 0 f.matches)
                (reaches x.start f.from)
                (0 + length f.matches)))
        × ((push reaches x f).current
            ≡ or_zero (
                or_last
                  (first_from f.from 0 f.matches)
                  (reaches x.start f.from)
                  (0 + length f.matches)))
  unfolding push
  push-placing x f p = elim (Option-cases (first_from f.from 0 f.matches)) [
    | inr (i, e) ↦
        let g : f.placed ≡ true = p.placed ∙ ap is_found e in
        let h : f.current ≡ i = p.current ∙ ap or_zero e in rw (e, g) (refl, h)
    | inl e ↦
        let g : f.placed ≡ false = p.placed ∙ ap is_found e in
        let h : f.current ≡ 0 = p.current ∙ ap or_zero e in
        elim (Bool-cases (reaches x.start f.from)) [
          | inl d ↦ rw (e, g, d) (refl, omega (arith, length-append {0} f.matches (x ∷ [])))
          | inr d ↦ rw (e, g, d) (refl, h)
        ]
  ]

  push-IsPlaced : (x : DocSelection) (f : CodeFinder) → IsPlaced f → IsPlaced (push reaches x f)
  push-IsPlaced x f p =
      let (a, b, c, d) = push-matches x f in
      let (g, h) = push-placing x f p in
      let q : first_from (push reaches x f).from 0 (push reaches x f).matches
          ≡ or_last (first_from f.from 0 f.matches) (reaches x.start f.from)
              (0 + length f.matches) =
        ap₂ (λ (place : DocPos) (l : List DocSelection). first_from place 0 l) b a
        ∙ first_from-append_last f.from 0 f.matches x in
      record { placed = g ∙ ap is_found (sym q); current = h ∙ ap or_zero (sym q) }

  pub push_all-matches :
      (xs : List DocSelection) (f : CodeFinder)
      → ((push_all reaches xs f).matches ≡ f.matches ++ xs)
        × ((push_all reaches xs f).from ≡ f.from)
        × ((push_all reaches xs f).reading ≡ f.reading)
        × ((push_all reaches xs f).active ≡ f.active)
  unfolding push_all
  push_all-matches [] f = (sym (append-nil f.matches), refl, refl, refl)
  push_all-matches (x ∷ xs) f =
      let (a, b, c, d) = push_all-matches xs (push reaches x f) in
      let (a', b', c', d') = push-matches x f in
      (
        a ∙ ap (λ (l : List DocSelection). l ++ xs) a' ∙ append_assoc f.matches (x ∷ []) xs,
        b ∙ b',
        c ∙ c',
        d ∙ d',
      )

  pub push_all-IsPlaced :
      (xs : List DocSelection) (f : CodeFinder) → IsPlaced f → IsPlaced (push_all reaches xs f)
  unfolding push_all
  push_all-IsPlaced [] f p = p
  push_all-IsPlaced (x ∷ xs) f p = push_all-IsPlaced xs (push reaches x f) (push-IsPlaced x f p)
