-- ===== src/Terminal/Finder/Scanning.antt =====
-- The loop of `refresh` over the lines of the screen.
use workpane.Prelude.{
  ℕ, zero, suc, ◌+◌, ◌-◌, ◌≤◌, ◌<◌, ◌≡◌, refl, sym, ◌∙◌, ap, subst, false, List, [], ◌∷◌, ◌++◌,
  Option, none, some, map, Bool-cases, inl, inr, leb, length, length-append, length-take, take,
  append-nil, append_assoc, arith,
}
use workpane.Prelude.Bytes.{Bytes}
use workpane.Search.Matcher.{Match, TextMatcher, nothing}
use workpane.Search.Matcher.Occurrences.{find_matches-matches_from}
use workpane.Terminal.Selection.{TerminalScreen}
use workpane.Terminal.Finder.{TerminalMatch, row_of, placed, scan, scan_lines, maximum_matches}
use workpane.Terminal.Finder.Lines.{all_matches, of_cells, span}

module _ {A : Type 0} where
  pub take-append_more :
      (n : ℕ) (xs ys : List A) → length xs ≤ n → take n (xs ++ ys) ≡ xs ++ take (n - length xs) ys
  take-append_more n [] ys h = let p : n - 0 ≡ n = omega arith in rw p refl
  take-append_more zero (x ∷ xs) ys h = absurd (omega (arith, h))
  take-append_more (suc n) (x ∷ xs) ys h =
      let p : suc n - suc (length xs) ≡ n - length xs = omega arith in
      rw p (ap (λ (l : List A). x ∷ l) (take-append_more n xs ys (omega (arith, h))))

  pub take_all : (n : ℕ) (xs : List A) → length xs ≤ n → take n xs ≡ xs
  take_all zero [] h = refl
  take_all zero (x ∷ xs) h = absurd (omega (arith, h))
  take_all (suc n) [] h = refl
  take_all (suc n) (x ∷ xs) h = ap (λ (l : List A). x ∷ l) (take_all n xs (omega (arith, h)))

  pub take-append_less : (n : ℕ) (xs ys : List A) → n ≤ length xs → take n (xs ++ ys) ≡ take n xs
  take-append_less zero xs ys h = refl
  take-append_less (suc n) [] ys h = absurd (omega (arith, h))
  take-append_less (suc n) (x ∷ xs) ys h =
      ap (λ (l : List A). x ∷ l) (take-append_less n xs ys (omega (arith, h)))

map-take : {A B : Type 0} (f : A → B) (n : ℕ) (xs : List A) → map f (take n xs) ≡ take n (map f xs)
map-take f zero xs = refl
map-take f (suc n) [] = refl
map-take f (suc n) (x ∷ xs) = ap (λ l. f x ∷ l) (map-take f n xs)

-- The cells of the lines of a screen, by their numbers from the start of the terminal.
abbrev pub rows : TerminalScreen → ℕ → Bytes × List ℕ
rows screen stable = row_of screen (stable - screen.dropped)

module _ (screen : TerminalScreen) (m : TextMatcher) (needle : nothing m.needle ≡ false) where
  abbrev line_matches : ℕ → List TerminalMatch
  line_matches line = of_cells m (screen.dropped + line) (row_of screen line)

  scan-line_matches :
      (line : ℕ) (xs : List TerminalMatch)
      → length xs ≤ maximum_matches
      → scan screen line m xs ≡ take maximum_matches (xs ++ line_matches line)
  unfolding scan
  scan-line_matches line xs h =
      let (row, columns) = row_of screen line in
      let k = maximum_matches - length xs in
      ap (λ (l : List Match). xs ++ map (placed (screen.dropped + line) columns) l)
        (find_matches-matches_from m row k needle)
      ∙ ap (λ (l : List TerminalMatch). xs ++ l)
          (map-take (placed (screen.dropped + line) columns) k (all_matches m row))
      ∙ sym (take-append_more maximum_matches xs (line_matches line) h)

  span-first :
      (line n : ℕ)
      → span m (rows screen) (screen.dropped + line) (suc n)
        ≡ line_matches line ++ span m (rows screen) (screen.dropped + (line + 1)) n
  unfolding span
  span-first line n =
      let p : screen.dropped + line - screen.dropped ≡ line = omega arith in
      let q : screen.dropped + (line + 1) ≡ screen.dropped + line + 1 = omega arith in
      rw (q, p) refl

  -- All the matches of the lines are there, or the first 999 and those of the lines before a break are fewer.
  abbrev pub AreScanned : ℕ → ℕ → List TerminalMatch → List TerminalMatch × Option ℕ → Type 0
  AreScanned n line xs (found, none) =
      (found ≡ xs ++ span m (rows screen) (screen.dropped + line) n)
      × (length (xs ++ span m (rows screen) (screen.dropped + line) n) < maximum_matches)
  AreScanned n line xs (found, some stop) =
      (line ≤ stop)
      × (stop < line + n)
      × (maximum_matches ≤ length (xs ++ span m (rows screen) (screen.dropped + line) n))
      × (found ≡ take maximum_matches (xs ++ span m (rows screen) (screen.dropped + line) n))
      × (length (xs ++ span m (rows screen) (screen.dropped + line) (stop - line))
          < maximum_matches)

  AreScanned-first :
      (n line : ℕ) (xs : List TerminalMatch) (r : List TerminalMatch × Option ℕ)
      → AreScanned n (line + 1) (xs ++ line_matches line) r
      → AreScanned (suc n) line xs r
  AreScanned-first n line xs (found, none) (e, h) =
      let p =
        append_assoc xs (line_matches line) (span m (rows screen) (screen.dropped + (line + 1)) n)
        ∙ ap (λ (l : List TerminalMatch). xs ++ l) (sym (span-first line n)) in
      (e ∙ p, subst (λ (l : List TerminalMatch). length l < maximum_matches) p h)
  AreScanned-first n line xs (found, some stop) (a, b, g, e, h) =
      let p =
        append_assoc xs (line_matches line) (span m (rows screen) (screen.dropped + (line + 1)) n)
        ∙ ap (λ (l : List TerminalMatch). xs ++ l) (sym (span-first line n)) in
      let k = stop - (line + 1) in
      let i : suc k ≡ stop - line = omega (arith, a) in
      let q =
        append_assoc xs (line_matches line) (span m (rows screen) (screen.dropped + (line + 1)) k)
        ∙ ap (λ (l : List TerminalMatch). xs ++ l) (sym (span-first line k))
        ∙ ap (λ j. xs ++ span m (rows screen) (screen.dropped + line) j) i in
      (
        omega (arith, a),
        omega (arith, b),
        subst (λ (l : List TerminalMatch). maximum_matches ≤ length l) p g,
        e ∙ ap (take maximum_matches) p,
        subst (λ (l : List TerminalMatch). length l < maximum_matches) q h,
      )

  pub scan_lines-AreScanned :
      (n line : ℕ) (xs : List TerminalMatch)
      → length xs < maximum_matches
      → AreScanned n line xs (scan_lines n screen line m xs)
  unfolding scan_lines span
  scan_lines-AreScanned zero line xs h = (
    sym (append-nil xs),
    subst (λ (l : List TerminalMatch). length l < maximum_matches) (sym (append-nil xs)) h,
  )
  scan_lines-AreScanned (suc n) line xs h =
      let c = line_matches line in
      let p = scan-line_matches line xs (omega (arith, h)) in
      let l = length-take maximum_matches (xs ++ c) in
      elim (Bool-cases (leb maximum_matches (length (scan screen line m xs)))) [
        | inl e ↦
            let d : maximum_matches ≤ length (xs ++ c) =
              let e' = rw p at e in ground (arith, e', l) in
            let tail = span m (rows screen) (screen.dropped + (line + 1)) n in
            let whole =
              append_assoc xs c tail
              ∙ ap (λ (l : List TerminalMatch). xs ++ l) (sym (span-first line n)) in
            let z : line - line ≡ 0 = omega arith in
            rw (scan_lines, e)
              (
                omega arith,
                omega arith,
                subst (λ (l : List TerminalMatch). maximum_matches ≤ length l) whole
                    (omega (arith, d, length-append (xs ++ c) tail)),
                p
                    ∙ sym (take-append_less maximum_matches (xs ++ c) tail d)
                    ∙ ap (take maximum_matches) whole,
                rw z (
                    subst (λ (l : List TerminalMatch). length l < maximum_matches)
                      (sym (append-nil xs)) h),
              )
        | inr e ↦
            let d : length (xs ++ c) < maximum_matches =
              let e' = rw p at e in ground (arith, e', l) in
            let more : scan screen line m xs ≡ xs ++ c =
              p ∙ take_all maximum_matches (xs ++ c) (omega (arith, d)) in
            rw (scan_lines, e, more)
              (AreScanned-first n line xs (scan_lines n screen (line + 1) m (xs ++ c))
                (scan_lines-AreScanned n (line + 1) (xs ++ c) d))
      ]
