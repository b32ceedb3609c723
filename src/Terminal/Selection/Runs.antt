-- ===== src/Terminal/Selection/Runs.antt =====
-- A word and a line are taken whole and go no further.
use workpane.Prelude.{
  ℕ, zero, suc, ◌+◌, ◌-◌, ◌≤◌, ◌<◌, ◌≡◌, ◌⊎◌, Bool, true, false, ◌&&◌, some, ltb, leb, Bool-cases,
  inl, inr, refl, arith,
}
use workpane.Terminal.Selection.{
  TerminalPoint, TerminalScreen, TerminalSelection, run_back, run_on, holds_line, word_cell, word,
  whole_line, select,
}

-- The numbers from `first` to `last` around `n`, where a test holds below `n` and at and behind it,
-- and on neither side beyond.
pub record Run (back on : ℕ → Bool) (limit n first last : ℕ) : Type 0 where
  pub around : (first ≤ n) × (n ≤ last)
  pub before : (i : ℕ) → first ≤ i → i < n → back i ≡ true
  pub behind : (i : ℕ) → n ≤ i → i < last → on i ≡ true
  pub starts : (first ≡ 0) ⊎ (back (first - 1) ≡ false)
  pub ends : (limit ≤ last + 1) ⊎ (on last ≡ false)

run_back-le : (test : ℕ → Bool) (n : ℕ) → run_back test n ≤ n
unfolding run_back
run_back-le test zero = omega arith
run_back-le test (suc n) = elim (Bool-cases (test n)) [
  | inl e ↦ rw (e, run_back) (omega (arith, run_back-le test n))
  | inr e ↦ rw (e, run_back) (omega arith)
]

-- Either the number is the last of those below the bound, or it is below it already.
below-cases : (i n : ℕ) → i < suc n → (i < n) ⊎ (i ≡ n)
below-cases i n h = elim (Bool-cases (ltb i n)) [
  | inl e ↦ inl (ground arith)
  | inr e ↦ inr (ground arith)
]

run_back-before : (test : ℕ → Bool) (n i : ℕ) → run_back test n ≤ i → i < n → test i ≡ true
unfolding run_back
run_back-before test zero i h g = absurd (omega (arith, g))
run_back-before test (suc n) i h g = elim (Bool-cases (test n)) [
  | inl e ↦
      let h' : run_back test n ≤ i = rw (e, run_back) at h in
      elim (below-cases i n g) [ inl l ↦ run_back-before test n i h' l | inr p ↦ rw p e ]
  | inr e ↦ let h' : suc n ≤ i = rw (e, run_back) at h in absurd (omega arith)
]

run_back-starts :
    (test : ℕ → Bool) (n : ℕ) → (run_back test n ≡ 0) ⊎ (test (run_back test n - 1) ≡ false)
unfolding run_back
run_back-starts test zero = inl refl
run_back-starts test (suc n) = elim (Bool-cases (test n)) [
  | inl e ↦ rw (e, run_back) (run_back-starts test n)
  | inr e ↦ let p : suc n - 1 ≡ n = omega arith in rw (e, run_back) (inr (rw p e))
]

run_on-le : (fuel : ℕ) (test : ℕ → Bool) (limit n : ℕ) → n ≤ run_on fuel test limit n
unfolding run_on
run_on-le zero test limit n = omega arith
run_on-le (suc fuel) test limit n = elim (Bool-cases (ltb (n + 1) limit && test n)) [
  | inl e ↦ rw (e, run_on) (omega (arith, run_on-le fuel test limit (n + 1)))
  | inr e ↦ rw (e, run_on) (omega arith)
]

from-cases : (i n : ℕ) → n ≤ i → (n + 1 ≤ i) ⊎ (i ≡ n)
from-cases i n h = elim (Bool-cases (leb (n + 1) i)) [
  | inl e ↦ inl (ground arith)
  | inr e ↦ inr (ground arith)
]

run_on-behind :
    (fuel : ℕ) (test : ℕ → Bool) (limit n i : ℕ)
    → n ≤ i
    → i < run_on fuel test limit n
    → test i ≡ true
unfolding run_on
run_on-behind zero test limit n i h g = absurd (omega arith)
run_on-behind (suc fuel) test limit n i h g = elim (Bool-cases (ltb (n + 1) limit && test n)) [
  | inl e ↦
      let g' = rw (e, run_on) at g in
      elim (from-cases i n h) [
        | inl l ↦ run_on-behind fuel test limit (n + 1) i l g'
        | inr p ↦ rw p (ground arith)
      ]
  | inr e ↦ let g' : i < n = rw (e, run_on) at g in absurd (omega arith)
]

run_on-ends :
    (fuel : ℕ) (test : ℕ → Bool) (limit n : ℕ)
    → limit ≤ n + fuel
    → (limit ≤ run_on fuel test limit n + 1) ⊎ (test (run_on fuel test limit n) ≡ false)
unfolding run_on
run_on-ends zero test limit n h = inl (omega (arith, h))
run_on-ends (suc fuel) test limit n h = elim (Bool-cases (ltb (n + 1) limit)) [
  | inl e ↦ elim (Bool-cases (test n)) [
    | inl f ↦ rw (e, f, run_on) (run_on-ends fuel test limit (n + 1) (omega (arith, h)))
    | inr f ↦ rw (e, f, run_on) (inr f)
  ]
  | inr e ↦ rw (e, run_on) (inl (ground arith))
]

runs :
    (back on : ℕ → Bool) (limit n : ℕ)
    → Run back on limit n (run_back back n) (run_on limit on limit n)
runs back on limit n = record {
  around = (run_back-le back n, run_on-le limit on limit n);
  before = run_back-before back n;
  behind = run_on-behind limit on limit n;
  starts = run_back-starts back n;
  ends = run_on-ends limit on limit n (omega arith);
}

-- A selection of whole cells from one point to another.
pub record Selects (s : TerminalSelection) (from to : TerminalPoint) : Type 0 where
  pub anchor : s.anchor ≡ some from
  pub extent : s.extent ≡ to
  pub plain : s.rectangular ≡ false

-- On a word character of a line that the screen holds, a double click takes the whole run of word
-- characters on that line around the point, and no more.
pub word_lem :
    (screen : TerminalScreen) (point : TerminalPoint) (s : TerminalSelection)
    → holds_line screen point.line ≡ true
    → word_cell screen (point.line - screen.dropped) point.column ≡ true
    → (first last : ℕ) × Run
        (word_cell screen (point.line - screen.dropped))
        (λ column. word_cell screen (point.line - screen.dropped) (column + 1))
        screen.columns
        point.column
        first
        last
      × Selects
          (word screen point s)
          (record { line = point.line; column = first })
          (record { line = point.line; column = last })
unfolding word select
word_lem screen point s h g =
    let line = point.line - screen.dropped in
    (
      run_back (word_cell screen line) point.column,
      run_on screen.columns (λ column. word_cell screen line (column + 1)) screen.columns
          point.column,
      runs (word_cell screen line) (λ column. word_cell screen line (column + 1)) screen.columns
          point.column,
      rw (h, g) (record { anchor = refl; extent = refl; plain = refl }),
    )

-- On a line that the screen holds, a line is taken with every row that the terminal wrapped it over, from
-- its first cell to its last, and no more.
pub whole_line_lem :
    (screen : TerminalScreen) (point : TerminalPoint) (s : TerminalSelection)
    → holds_line screen point.line ≡ true
    → (first last : ℕ) × Run screen.wraps screen.wraps screen.lines
        (point.line - screen.dropped)
        first
        last
      × Selects
          (whole_line screen point s)
          (record { line = screen.dropped + first; column = 0 })
          (record { line = screen.dropped + last; column = screen.columns - 1 })
unfolding whole_line select
whole_line_lem screen point s h =
    let line = point.line - screen.dropped in
    (
      run_back screen.wraps line,
      run_on screen.lines screen.wraps screen.lines line,
      runs screen.wraps screen.wraps screen.lines line,
      rw h (record { anchor = refl; extent = refl; plain = refl }),
    )
