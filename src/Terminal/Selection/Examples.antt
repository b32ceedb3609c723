-- ===== src/Terminal/Selection/Examples.antt =====
-- A screen of two rows of five cells, the first wrapped, after three lines have gone.
use workpane.Prelude.{
  ℕ, ◌+◌, ◌≡◌, refl, true, false, some, ◌&&◌, take, drop, leb, ltb, ◌==◌, if◌then◌else◌, arith,
}
use workpane.Prelude.Bytes.{Bytes, codes, holds_byte}
use workpane.Terminal.Selection.{
  TerminalPoint, TerminalScreen, TerminalSelection, initial, word, word_cell, word_character,
  whole_line, run_back, run_on, select, empty, contains, ordered, row_first, row_last, text,
  copy_rows, trim_end, holds_line,
}
use workpane.Terminal.Selection.Runs.{Run, Selects, word_lem, whole_line_lem}
use workpane.Terminal.Selection.Cells.{copied, copied_lines, text-contains}

abbrev row : ℕ → Bytes
row n = if n == 0 then codes "ab cd" else codes "e    "

abbrev screen : TerminalScreen
screen = record {
  lines = 2;
  columns = 5;
  history = 0;
  dropped = 3;
  wraps = λ n. n == 0;
  text = λ n from to. drop from (take to (row n));
}

abbrev at : ℕ → ℕ → TerminalPoint
at l c = record { line = l; column = c }

abbrev both : TerminalSelection
both = record { anchor = some (at 4 1); extent = at 3 3; rectangular = false }

word_taken :
    word screen (at 3 4) initial
    ≡ record { anchor = some (at 3 3); extent = at 3 4; rectangular = false }
unfolding word word_character run_back run_on select
word_taken = refl

-- The wrapped row runs on, and the blanks at the end of the last one go.
both_copied : text screen both ≡ codes "cde"
unfolding text copy_rows ordered empty row_first row_last trim_end
both_copied = refl

cell_taken : word_cell screen 0 4 ≡ true
unfolding word_character
cell_taken = refl

not_empty : empty both ≡ false
unfolding empty
not_empty = refl

word_lem_example :
    (first last : ℕ) × Run
      (word_cell screen 0)
      (λ column. word_cell screen 0 (column + 1))
      5
      4
      first
      last
    × Selects (word screen (at 3 4) initial) (at 3 first) (at 3 last)
word_lem_example = word_lem screen (at 3 4) initial refl cell_taken

whole_line_taken :
    (first last : ℕ) × Run screen.wraps screen.wraps 2 1 first last
    × Selects (whole_line screen (at 4 2) initial) (at (3 + first) 0) (at (3 + last) 4)
whole_line_taken = whole_line_lem screen (at 4 2) initial refl

text-contains_example :
    (text screen both ≡ copied screen both (copied_lines screen both))
    × ((contains both (at 4 0) && holds_line screen 4) ≡ (
        holds_byte 4 (copied_lines screen both)
        && leb (row_first both 4) 0
        && ltb 0 (row_last screen both 4)))
text-contains_example = text-contains screen both (at 4 0) not_empty (omega arith)
