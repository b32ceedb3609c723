-- ===== src/Terminal/Finder/Lines.antt =====
-- The matches of a line and of a span of lines, and what is kept of them.
use workpane.Prelude.{
  ℕ, zero, suc, ◌+◌, ◌-◌, ◌≤◌, ◌<◌, ◌≡◌, refl, sym, ◌∙◌, ap, ap₂, true, false, ◌||◌, List, [], ◌∷◌,
  ◌++◌, map, All, All-append, Bool-cases, inl, inr, ltb, leb, take, append-nil, append_assoc, arith,
}
use workpane.Prelude.Bytes.{Bytes}
use workpane.Search.Matcher.{Match, TextMatcher, folded}
use workpane.Search.Matcher.Occurrences.{matches_from}
use workpane.Terminal.Finder.{TerminalMatch, placed, kept_matches}

-- All the matches of a line of bytes.
abbrev pub all_matches : TextMatcher → Bytes → List Match
all_matches m row = matches_from m (folded row m.case_sensitive) 0 (folded row m.case_sensitive)

-- Those of a line of the terminal, from its cells, and those of some lines in a row, by their numbers from
-- the start of the terminal.
abbrev pub of_cells : TextMatcher → ℕ → Bytes × List ℕ → List TerminalMatch
of_cells m stable (row, columns) = map (placed stable columns) (all_matches m row)

unfoldable pub span : TextMatcher → (ℕ → Bytes × List ℕ) → ℕ → ℕ → List TerminalMatch
span m rows stable zero = []
span m rows stable (suc n) = of_cells m stable (rows stable) ++ span m rows (stable + 1) n

pub span-split :
    (m : TextMatcher) (rows : ℕ → Bytes × List ℕ) (stable a b : ℕ)
    → span m rows stable (a + b) ≡ span m rows stable a ++ span m rows (stable + a) b
unfolding span
span-split m rows stable zero b =
    let p : zero + b ≡ b = omega arith in
    let q : stable + zero ≡ stable = omega arith in rw (p, q) refl
span-split m rows stable (suc a) b =
    let p : suc a + b ≡ suc (a + b) = omega arith in
    let q : stable + suc a ≡ stable + 1 + a = omega arith in
    rw (p, q)
      (ap (λ (l : List TerminalMatch). of_cells m stable (rows stable) ++ l)
          (span-split m rows (stable + 1) a b)
        ∙ sym (
            append_assoc (of_cells m stable (rows stable)) (span m rows (stable + 1) a)
              (span m rows (stable + 1 + a) b)))

-- Spans of lines with the same cells.
pub span-eq :
    (m : TextMatcher) (rows others : ℕ → Bytes × List ℕ) (stable n : ℕ)
    → ((l : ℕ) → stable ≤ l → l < stable + n → rows l ≡ others l)
    → span m rows stable n ≡ span m others stable n
unfolding span
span-eq m rows others stable zero h = refl
span-eq m rows others stable (suc n) h =
    ap₂ (λ (a b : List TerminalMatch). a ++ b)
      (ap (of_cells m stable) (h stable (omega arith) (omega arith)))
      (span-eq m rows others (stable + 1) n (λ l a b. h l (omega (arith, a)) (omega (arith, b))))

-- A match lies on a line of its span.
abbrev LiesIn : ℕ → ℕ → TerminalMatch → Type 0
LiesIn a b x = (a ≤ x.from.line) × (x.from.line < b)

All-take :
    (P : TerminalMatch → Type 0) (k : ℕ) (xs : List TerminalMatch) → All P xs → All P (take k xs)
All-take P zero xs h = tt
All-take P (suc k) [] h = tt
All-take P (suc k) (x ∷ xs) h = (h.0, All-take P k xs h.1)

of_cells-LiesIn :
    (stable a b : ℕ) (columns : List ℕ) (xs : List Match)
    → a ≤ stable
    → stable < b
    → All (LiesIn a b) (map (placed stable columns) xs)
of_cells-LiesIn stable a b columns [] h k = tt
of_cells-LiesIn stable a b columns (x ∷ xs) h k =
    ((h, k), of_cells-LiesIn stable a b columns xs h k)

span-LiesIn :
    (m : TextMatcher) (rows : ℕ → Bytes × List ℕ) (stable n a b : ℕ)
    → a ≤ stable
    → stable + n ≤ b
    → All (LiesIn a b) (span m rows stable n)
unfolding span
span-LiesIn m rows stable zero a b h k = tt
span-LiesIn m rows stable (suc n) a b h k =
    All-append (LiesIn a b) (of_cells m stable (rows stable)) (span m rows (stable + 1) n)
      (of_cells-LiesIn stable a b (rows stable).1 (all_matches m (rows stable).0) h
        (omega (arith, k)))
      (span-LiesIn m rows (stable + 1) n a b (omega (arith, h)) (omega (arith, k)))

kept_matches-append :
    (first from : ℕ) (xs ys : List TerminalMatch)
    → kept_matches first from (xs ++ ys) ≡ kept_matches first from xs ++ kept_matches first from ys
unfolding kept_matches
kept_matches-append first from [] ys = refl
kept_matches-append first from (x ∷ xs) ys =
    elim (Bool-cases (ltb x.from.line first || leb from x.from.line)) [
      | inl e ↦ rw e (kept_matches-append first from xs ys)
      | inr e ↦ rw e (ap (λ (l : List TerminalMatch). x ∷ l) (kept_matches-append first from xs ys))
    ]

kept_all :
    (first from : ℕ) (xs : List TerminalMatch)
    → All (LiesIn first from) xs
    → kept_matches first from xs ≡ xs
unfolding kept_matches
kept_all first from [] h = refl
kept_all first from (x ∷ xs) ((a, b), h) =
    let e : (ltb x.from.line first || leb from x.from.line) ≡ false = ground (arith, a, b) in
    rw e (ap (λ (l : List TerminalMatch). x ∷ l) (kept_all first from xs h))

kept_none_below :
    (first from a b : ℕ) (xs : List TerminalMatch)
    → b ≤ first
    → All (LiesIn a b) xs
    → kept_matches first from xs ≡ []
unfolding kept_matches
kept_none_below first from a b [] k h = refl
kept_none_below first from a b (x ∷ xs) k ((p, q), h) =
    let e : (ltb x.from.line first || leb from x.from.line) ≡ true = ground (arith, p, q, k) in
    rw e (kept_none_below first from a b xs k h)

kept_none_above :
    (first from a b : ℕ) (xs : List TerminalMatch)
    → from ≤ a
    → All (LiesIn a b) xs
    → kept_matches first from xs ≡ []
unfolding kept_matches
kept_none_above first from a b [] k h = refl
kept_none_above first from a b (x ∷ xs) k ((p, q), h) =
    let e : (ltb x.from.line first || leb from x.from.line) ≡ true = ground (arith, p, q, k) in
    rw e (kept_none_above first from a b xs k h)

-- Of the matches of some lines and of later ones, those between two of the first lines are kept.
pub kept-span :
    (m : TextMatcher) (rows : ℕ → Bytes × List ℕ) (start n first from : ℕ)
    (later : List TerminalMatch)
    → start ≤ first
    → first ≤ from
    → from ≤ start + n
    → kept_matches first from later ≡ []
    → kept_matches first from (span m rows start n ++ later) ≡ span m rows first (from - first)
kept-span m rows start n first from later a b c h =
    let i = first - start in
    let j = from - first in
    let k = start + n - from in
    let p : n ≡ i + (j + k) = omega (arith, a, b, c) in
    let q : start + i ≡ first = omega (arith, a) in
    let r : first + j ≡ from = omega (arith, b) in
    let before =
      kept_none_below first from start first (span m rows start i) (omega arith)
        (span-LiesIn m rows start i start first (omega arith) (omega (arith, a))) in
    let between =
      kept_all first from (span m rows first j)
        (span-LiesIn m rows first j first from (omega arith) (omega (arith, b))) in
    let after =
      kept_none_above first from from (from + k) (span m rows from k) (omega arith)
        (span-LiesIn m rows from k from (from + k) (omega arith) (omega arith)) in
    let split =
      ap (span m rows start) p
      ∙ span-split m rows start i (j + k)
      ∙ ap (λ z. span m rows start i ++ span m rows z (j + k)) q
      ∙ ap (λ (l : List TerminalMatch). span m rows start i ++ l)
          (span-split m rows first j k ∙ ap (λ z. span m rows first j ++ span m rows z k) r) in
    kept_matches-append first from (span m rows start n) later
    ∙ ap₂ (λ (x y : List TerminalMatch). x ++ y)
        (ap (kept_matches first from) split
          ∙ kept_matches-append first from (span m rows start i)
              (span m rows first j ++ span m rows from k)
          ∙ ap₂ (λ (x y : List TerminalMatch). x ++ y) before
              (kept_matches-append first from (span m rows first j) (span m rows from k)
                ∙ ap₂ (λ (x y : List TerminalMatch). x ++ y) between after
                ∙ append-nil (span m rows first j)))
        h
    ∙ append-nil (span m rows first j)

-- Later lines lie above.
pub kept-span_later :
    (m : TextMatcher) (rows : ℕ → Bytes × List ℕ) (start n first from k : ℕ)
    → from ≤ start
    → kept_matches first from (take k (span m rows start n)) ≡ []
kept-span_later m rows start n first from k h =
    kept_none_above first from start (start + n) (take k (span m rows start n)) h (
      All-take (LiesIn start (start + n)) k (span m rows start n)
        (span-LiesIn m rows start n start (start + n) (omega arith) (omega arith)))
