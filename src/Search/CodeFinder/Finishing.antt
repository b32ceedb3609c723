-- ===== src/Search/CodeFinder/Finishing.antt =====
-- A step of a search reads further or settles it at the end of the document.
use workpane.Prelude.{
  ℕ, zero, suc, ◌+◌, ◌-◌, ◌≤◌, ◌<◌, ◌≡◌, ◌⊎◌, refl, sym, ◌∙◌, ap, Bool, true, false, not, ◌&&◌,
  List, [], ◌∷◌, ◌++◌, Option, none, some, take, length, min, get_or, ltb, leb, arith, Bool-cases,
  inl, inr, if◌then◌else◌, subst, leb→le,
}
use workpane.Prelude.Bytes.{Bytes}
use workpane.Search.Matcher.{TextMatcher, nothing}
use workpane.Search.CodeFinder.{
  DocPos, DocSelection, CodeFinder, scan, scan_by, scanned, searching, advance_lines, advance,
  settled, maximum_matches, lines_per_step,
}
use workpane.Search.CodeFinder.Glyphs.{push_all, line_selections, scan_matches-line_selections}
use workpane.Search.CodeFinder.Scanning.{
  IsPlaced, first_from, is_found, or_zero, push_all-matches, push_all-IsPlaced,
}

nothing_left : 0 - 0 ≡ 0
nothing_left = omega arith

take-append-take :
    (n : ℕ) (xs ys : List DocSelection)
    → take n xs ++ take (n - length (take n xs)) ys ≡ take n (xs ++ ys)
take-append-take zero xs ys = ap (λ (n : ℕ). take n ys) nothing_left
take-append-take (suc n) [] ys =
    let p : suc n - length {A = DocSelection} [] ≡ suc n = omega arith in rw p refl
take-append-take (suc n) (x ∷ xs) ys =
    let p : suc n - suc (length (take n xs)) ≡ n - length (take n xs) = omega arith in
    rw p (ap (λ (l : List DocSelection). x ∷ l) (take-append-take n xs ys))

take-full :
    (n : ℕ) (xs ys : List DocSelection) → n ≤ length (take n xs) → take n (xs ++ ys) ≡ take n xs
take-full zero xs ys h = refl
take-full (suc n) [] ys h = absurd (omega (arith, h))
take-full (suc n) (x ∷ xs) ys h =
    ap (λ (l : List DocSelection). x ∷ l) (take-full n xs ys (omega (arith, h)))

not_found : (o : Option ℕ) → is_found o ≡ false → or_zero o ≡ 0
not_found none h = refl
not_found (some i) h = ground arith

-- Behind a step that goes on, lines have been read.
further :
    (size from next : ℕ) (bounded : Bool)
    → (bounded ≡ true) ⊎ (next ≡ from + (min size (from + lines_per_step) - from))
    → from ≤ size
    → (not bounded && ltb next size) ≡ true
    → from < next
further size from next true o h e = ground arith
further size from next false (inl d) h e = ground arith
further size from next false (inr d) h e = ground arith

end_of :
    (size next : ℕ) (bounded : Bool)
    → next ≤ size
    → (not bounded && ltb next size) ≡ false
    → (bounded ≡ true) ⊎ (next ≡ size)
end_of size next true h e = inl refl
end_of size next false h e = inr (ground arith)

module _ (m : TextMatcher) (lines : List Bytes) where
  -- The matches of the first lines, in the order of the document.
  unfoldable pub first_lines : ℕ → List DocSelection
  first_lines zero = []
  first_lines (suc n) = first_lines n ++ line_selections m n (get_or lines n [])

  take-first_lines_full :
      (limit n k : ℕ)
      → limit ≤ length (take limit (first_lines n))
      → take limit (first_lines (k + n)) ≡ take limit (first_lines n)
  unfolding first_lines
  take-first_lines_full limit n zero h = let p : 0 + n ≡ n = omega arith in rw p refl
  take-first_lines_full limit n (suc k) h =
      let p : suc k + n ≡ suc (k + n) = omega arith in
      let ih = take-first_lines_full limit n k h in
      rw p (
        take-full limit (first_lines (k + n)) (line_selections m (k + n) (get_or lines (k + n) []))
          (subst (λ (l : List DocSelection). limit ≤ length l) (sym ih) h)
        ∙ ih)

  module _ (reaches : DocPos → DocPos → Bool) (place : DocPos)
      (asked : nothing m.needle ≡ false) where
    -- A search that has read the first lines.
    pub record IsReading (f : CodeFinder) : Type 0 where
      pub reading : f.reading ≡ some m
      pub active : f.active ≡ true
      pub from : f.from ≡ place
      pub within : f.next_line ≤ length lines
      pub matches : f.matches ≡ take maximum_matches (first_lines f.next_line)
      pub bounded : f.bounded ≡ leb maximum_matches (length f.matches)
      pub placed : IsPlaced reaches f

    -- A search that has ended: the first matches of the whole document up to the bound, and the one
    -- to read, the first at or behind the start of the search, or else the first of all.
    pub record IsRead (f : CodeFinder) : Type 0 where
      pub ended : f.reading ≡ none
      pub matches : f.matches ≡ take maximum_matches (first_lines (length lines))
      pub current : f.current ≡ or_zero (first_from reaches place 0 f.matches)
      pub placed : f.placed ≡ true

    scan-push_all :
        (f : CodeFinder)
        → f.reading ≡ some m
        → scan reaches lines f.next_line f
          ≡ push_all reaches
              (take
                (maximum_matches - length f.matches)
                (line_selections m f.next_line (get_or lines f.next_line [])))
              f
    unfolding scan
    scan-push_all f e =
        ap (λ (o : Option TextMatcher). scan_by reaches o lines f.next_line f) e
        ∙ scan_matches-line_selections reaches m (get_or lines f.next_line []) f.next_line
            (maximum_matches - length f.matches) f asked

    scanned-IsReading :
        (f : CodeFinder)
        → IsReading f
        → f.next_line < length lines
        → IsReading (scanned reaches lines f)
    unfolding first_lines
    scanned-IsReading f r h =
        let xs =
          take (maximum_matches - length f.matches)
            (line_selections m f.next_line (get_or lines f.next_line [])) in
        let e = scan-push_all f r.reading in
        let (a, b, c, d) = push_all-matches reaches xs f in
        let p = push_all-IsPlaced reaches xs f r.placed in
        let q : f.next_line + 1 ≡ suc f.next_line = omega arith in
        rw e (record {
          reading = c ∙ r.reading;
          active = d ∙ r.active;
          from = b ∙ r.from;
          within = omega (arith, h);
          matches =
              a
              ∙ ap
                  (λ (l : List DocSelection).
                    l
                    ++ take (maximum_matches - length l)
                        (line_selections m f.next_line (get_or lines f.next_line [])))
                  r.matches
              ∙ take-append-take maximum_matches (first_lines f.next_line)
                  (line_selections m f.next_line (get_or lines f.next_line []))
              ∙ ap (λ (n : ℕ). take maximum_matches (first_lines n)) (sym q);
          bounded = refl;
          placed = record { placed = p.placed; current = p.current };
        })

    advance_lines-IsReading :
        (rounds : ℕ) (f : CodeFinder)
        → IsReading f
        → f.next_line + rounds ≤ length lines
        → IsReading (advance_lines reaches rounds lines f)
          × (((advance_lines reaches rounds lines f).bounded ≡ true)
              ⊎ ((advance_lines reaches rounds lines f).next_line ≡ f.next_line + rounds))
    unfolding advance_lines
    advance_lines-IsReading zero f r h = (r, inr (omega arith))
    advance_lines-IsReading (suc rounds) f r h = elim (Bool-cases f.bounded) [
      | inl e ↦ rw (e, advance_lines) (r, inl e)
      | inr e ↦
          let (r', o) =
            advance_lines-IsReading rounds (scanned reaches lines f)
              (scanned-IsReading f r (omega (arith, h))) (omega (arith, h)) in
          rw (e, advance_lines) (r', elim o [ inl g ↦ inl g | inr g ↦ inr (omega (arith, g)) ])
    ]

    settled-current :
        (f : CodeFinder)
        → IsPlaced reaches f
        → (if f.placed then f.current else 0) ≡ or_zero (first_from reaches f.from 0 f.matches)
    settled-current f p = elim (Bool-cases f.placed) [
      | inl e ↦ ap (λ (b : Bool). if b then f.current else 0) e ∙ p.current
      | inr e ↦
          ap (λ (b : Bool). if b then f.current else 0) e
          ∙ sym (not_found (first_from reaches f.from 0 f.matches) (sym p.placed ∙ e))
    ]

    all_matches :
        (f : CodeFinder)
        → IsReading f
        → (f.bounded ≡ true) ⊎ (f.next_line ≡ length lines)
        → f.matches ≡ take maximum_matches (first_lines (length lines))
    all_matches f r (inr e) = r.matches ∙ ap (λ (n : ℕ). take maximum_matches (first_lines n)) e
    all_matches f r (inl e) =
        let p : length lines - f.next_line + f.next_line ≡ length lines = omega (arith, r.within) in
        let full : maximum_matches ≤ length f.matches =
          leb→le maximum_matches (length f.matches) (sym r.bounded ∙ e) in
        r.matches
        ∙ sym (
            take-first_lines_full maximum_matches f.next_line (length lines - f.next_line)
              (subst (λ (l : List DocSelection). maximum_matches ≤ length l) r.matches full))
        ∙ ap (λ (n : ℕ). take maximum_matches (first_lines n)) p

    settled-IsRead :
        (f : CodeFinder)
        → IsReading f
        → (f.bounded ≡ true) ⊎ (f.next_line ≡ length lines)
        → IsRead (settled f)
    settled-IsRead f r o = record {
      ended = refl;
      matches = all_matches f r o;
      current =
          settled-current f r.placed
          ∙ ap (λ (p : DocPos). or_zero (first_from reaches p 0 f.matches)) r.from;
      placed = refl;
    }

    pub searching-IsReading : (f : CodeFinder) → IsReading f → searching f ≡ true
    unfolding searching
    searching-IsReading f r = rw (r.active, r.reading, asked) refl

    -- One step ends the search or reads further.
    pub advance-cases :
        (f : CodeFinder)
        → IsReading f
        → IsRead (advance reaches lines f).0
          ⊎ (IsReading (advance reaches lines f).0
              × (f.next_line < (advance reaches lines f).0.next_line))
    unfolding advance
    advance-cases f r =
        let last = min (length lines) (f.next_line + lines_per_step) in
        let read = advance_lines reaches (last - f.next_line) lines f in
        let (r', o) = advance_lines-IsReading (last - f.next_line) f r (omega (arith, r.within)) in
        elim (Bool-cases (not read.bounded && ltb read.next_line (length lines))) [
          | inl e ↦
              rw (searching-IsReading f r, e)
                (inr
                  (r', further (length lines) f.next_line read.next_line read.bounded o r.within e))
          | inr e ↦
              rw (searching-IsReading f r, e)
                (inl (
                  settled-IsRead read r'
                    (end_of (length lines) read.next_line read.bounded r'.within e)))
        ]
