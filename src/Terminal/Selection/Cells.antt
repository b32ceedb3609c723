-- ===== src/Terminal/Selection/Cells.antt =====
-- What is marked as selected is what is copied.
use workpane.Prelude.{
  ℕ, zero, suc, ◌+◌, ◌-◌, ◌<◌, ◌≤◌, ◌≡◌, refl, sym, ◌∙◌, ap, Bool, true, false, not, ◌&&◌, ◌==◌,
  List, [], ◌∷◌, ◌++◌, append_assoc, min, max, ltb, leb, if◌then◌else◌, Bool-cases, inl, inr, arith,
}
use workpane.Prelude.Bytes.{Bytes, holds_byte}
use workpane.Terminal.Selection.{
  TerminalPoint, TerminalScreen, TerminalSelection, ordered, empty, contains, row_first, row_last,
  trim_end, copy_rows, text, holds_line,
}

-- A point of a selection that is not empty, at a column of the screen, is marked exactly when it lies
-- on one of the lines from the first to the last, among the cells of it that a copy would take.
contains-row_first-row_last :
    (screen : TerminalScreen) (s : TerminalSelection) (point : TerminalPoint)
    → empty s ≡ false
    → point.column < screen.columns
    → contains s point ≡ (
        leb (ordered s).0.line point.line
        && leb point.line (ordered s).1.line
        && leb (row_first s point.line) point.column
        && ltb point.column (row_last screen s point.line))
unfolding contains row_first row_last
contains-row_first-row_last screen s point h g = elim (Bool-cases s.rectangular) [
  | inl e ↦ rw (h, e) (ground arith)
  | inr e ↦ rw (h, e) (ground arith)
]

-- Some lines that follow each other.
abbrev pub lines_from : ℕ → ℕ → List ℕ
lines_from line zero = []
lines_from line (suc count) = line ∷ lines_from (line + 1) count

-- The lines of a selection that the screen holds.
abbrev pub copied_lines : TerminalScreen → TerminalSelection → List ℕ
copied_lines screen s =
    let start = max (ordered s).0.line screen.dropped in
    lines_from start (min ((ordered s).1.line + 1) (screen.dropped + screen.lines) - start)

-- What is copied of a line: its cells, without the blanks at the end and with a line break unless the terminal
-- wrapped it, and without a line break on the last line of the selection.
abbrev pub copied_line : TerminalScreen → TerminalSelection → ℕ → Bytes
copied_line screen s line =
    let cells = screen.text (line - screen.dropped) (row_first s line) (row_last screen s line) in
    if line == (ordered s).1.line
    then trim_end cells
    else if not s.rectangular && screen.wraps (line - screen.dropped)
    then cells
    else trim_end cells ++ b'\n' ∷ []

abbrev pub copied : TerminalScreen → TerminalSelection → List ℕ → Bytes
copied screen s [] = []
copied screen s (line ∷ lines) = copied_line screen s line ++ copied screen s lines

holds_byte-lines_from :
    (line first count : ℕ)
    → holds_byte line (lines_from first count) ≡ (leb first line && ltb line (first + count))
holds_byte-lines_from line first zero = ground arith
holds_byte-lines_from line first (suc count) =
    ground (arith, holds_byte-lines_from line (first + 1) count)

-- What the loop writes of one line, before the rest.
row_and_rest :
    (rectangular wrapped last : Bool) (cells trimmed rest : Bytes)
    → (if not rectangular && wrapped && not last then cells else trimmed)
        ++ ((if not (not rectangular && wrapped && not last) && not last then b'\n' ∷ [] else [])
            ++ rest)
      ≡ (if last
          then trimmed
          else if not rectangular && wrapped
          then cells
          else trimmed ++ b'\n' ∷ [])
        ++ rest
row_and_rest true w true cells trimmed rest = refl
row_and_rest false true true cells trimmed rest = refl
row_and_rest false false true cells trimmed rest = refl
row_and_rest false true false cells trimmed rest = refl
row_and_rest false false false cells trimmed rest = sym (append_assoc trimmed (b'\n' ∷ []) rest)
row_and_rest true w false cells trimmed rest = sym (append_assoc trimmed (b'\n' ∷ []) rest)

copy_rows-copied :
    (screen : TerminalScreen) (s : TerminalSelection) (rounds stable : ℕ)
    → screen.dropped ≤ stable
    → copy_rows screen s rounds stable
      ≡ copied screen s
          (lines_from stable (min (stable + rounds) (screen.dropped + screen.lines) - stable))
unfolding copy_rows
copy_rows-copied screen s zero stable h =
    let e : min (stable + 0) (screen.dropped + screen.lines) - stable ≡ 0 = omega arith in rw e refl
copy_rows-copied screen s (suc rounds) stable h =
    elim (Bool-cases (leb screen.lines (stable - screen.dropped))) [
      | inl e ↦
          let n : min (stable + suc rounds) (screen.dropped + screen.lines) - stable ≡ 0 =
            ground (arith, e, h) in
          rw (e, n) refl
      | inr e ↦
          let n : min (stable + suc rounds) (screen.dropped + screen.lines) - stable
              ≡ suc (min (stable + 1 + rounds) (screen.dropped + screen.lines) - (stable + 1)) =
            ground (arith, e, h) in
          rw (e, n)
            (row_and_rest s.rectangular (screen.wraps (stable - screen.dropped))
                (stable == (ordered s).1.line)
                (screen.text (stable - screen.dropped) (row_first s stable)
                  (row_last screen s stable))
                (trim_end (
                  screen.text (stable - screen.dropped) (row_first s stable)
                    (row_last screen s stable)))
                (copy_rows screen s rounds (stable + 1))
              ∙ ap (λ rest. copied_line screen s stable ++ rest)
                  (copy_rows-copied screen s rounds (stable + 1) (omega (arith, h))))
    ]

-- The text of a selection that is not empty is that of the lines between its ends that the screen holds,
-- one after the other, and a point at a column of the screen is marked, on a line that the screen holds,
-- exactly when it lies on one of these lines, among the cells that are copied of it.
pub text-contains :
    (screen : TerminalScreen) (s : TerminalSelection) (point : TerminalPoint)
    → empty s ≡ false
    → point.column < screen.columns
    → (text screen s ≡ copied screen s (copied_lines screen s))
      × ((contains s point && holds_line screen point.line) ≡ (
          holds_byte point.line (copied_lines screen s)
          && leb (row_first s point.line) point.column
          && ltb point.column (row_last screen s point.line)))
unfolding text
text-contains screen s point h g = (
  (let start = max (ordered s).0.line screen.dropped in
      let e : min (start + ((ordered s).1.line + 1 - start)) (screen.dropped + screen.lines) - start
          ≡ min ((ordered s).1.line + 1) (screen.dropped + screen.lines) - start =
        omega arith in
      rw h (
        copy_rows-copied screen s ((ordered s).1.line + 1 - start) start (omega arith)
        ∙ ap (λ n. copied screen s (lines_from start n)) e)),
  ground (
    arith,
    contains-row_first-row_last screen s point h g,
    holds_byte-lines_from point.line (max (ordered s).0.line screen.dropped) (
        min ((ordered s).1.line + 1) (screen.dropped + screen.lines)
        - max (ordered s).0.line screen.dropped),
  ),
)
