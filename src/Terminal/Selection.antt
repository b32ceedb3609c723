-- ===== src/Terminal/Selection.antt =====
-- `TerminalSelection` of src/ui/components/terminal/TerminalSelection.cpp. Lines count from the start of
-- the terminal; a line that has left the history comes out negative in the source, and is tested for.
-- Columns are the cells of a row and never negative.
pub mod Runs
pub mod Cells
pub mod Examples
use workpane.Prelude.{
  ℕ, zero, suc, ◌+◌, ◌-◌, Bool, true, false, not, ◌&&◌, ◌||◌, List, [], ◌∷◌, ◌++◌, Option, none,
  some, min, max, ltb, leb, ◌==◌, between, if◌then◌else◌,
}
use workpane.Prelude.Bytes.{Bytes, codes, same, holds_byte}

-- src/ui/components/terminal/TerminalPoint.h, ordered by line and then by column.
pub record TerminalPoint : Type 0 where
  pub line : ℕ
  pub column : ℕ

abbrev pub point_leb : TerminalPoint → TerminalPoint → Bool
point_leb a b = ltb a.line b.line || a.line == b.line && leb a.column b.column

abbrev pub point_eq : TerminalPoint → TerminalPoint → Bool
point_eq a b = a.line == b.line && a.column == b.column

-- What the selection asks of `TerminalScreen`: how many lines it holds and has dropped, how wide it is,
-- which lines the terminal wrapped, and the text of the cells of a line.
pub record TerminalScreen : Type 0 where
  pub lines : ℕ
  pub columns : ℕ
  pub history : ℕ
  pub dropped : ℕ
  pub wraps : ℕ → Bool
  pub text : ℕ → ℕ → ℕ → Bytes

pub record TerminalSelection : Type 0 where
  pub anchor : Option TerminalPoint
  pub extent : TerminalPoint
  pub rectangular : Bool

abbrev pub initial : TerminalSelection
initial = record { anchor = none; extent = record { line = 0; column = 0 }; rectangular = false }

unfoldable pub begin_at : TerminalPoint → Bool → TerminalSelection → TerminalSelection
begin_at point rectangular s = record {
  anchor = some point;
  extent = point;
  rectangular = rectangular;
}

unfoldable pub extend : TerminalPoint → TerminalSelection → TerminalSelection
extend point s = elim s.anchor [ none ↦ s | some a ↦ record s { extent = point } ]

unfoldable pub select : TerminalPoint → TerminalPoint → TerminalSelection → TerminalSelection
select from to s = record { anchor = some from; extent = to; rectangular = false }

abbrev pub word_punctuation : Bytes
word_punctuation = codes "-_./~:@%+=?&#"

-- `std::isalnum` in the C locale.
abbrev is_alnum : ℕ → Bool
is_alnum x = between b'0' b'9' x || between b'A' b'Z' x || between b'a' b'z' x

unfoldable pub word_character : Bytes → Bool
word_character [] = false
word_character (x ∷ text) =
    not (same (x ∷ text) (b' ' ∷ [])) && (leb 0x80 x || is_alnum x || holds_byte x word_punctuation)

-- `while (n > 0 && test(n - 1)) --n;`
unfoldable pub run_back : (ℕ → Bool) → ℕ → ℕ
run_back test zero = zero
run_back test (suc n) = elim (test n) [ true ↦ run_back test n | false ↦ suc n ]

-- `while (n + 1 < limit && test(n)) ++n;`, which ends within `limit` rounds.
unfoldable pub run_on : ℕ → (ℕ → Bool) → ℕ → ℕ → ℕ
run_on zero test limit n = n
run_on (suc fuel) test limit n = elim (ltb (n + 1) limit && test n) [
  | true ↦ run_on fuel test limit (n + 1)
  | false ↦ n
]

-- The cell of a line, as a word sees it.
abbrev pub word_cell : TerminalScreen → ℕ → ℕ → Bool
word_cell screen line column = word_character (screen.text line column (column + 1))

-- Whether the screen still holds a line.
abbrev pub holds_line : TerminalScreen → ℕ → Bool
holds_line screen line = leb screen.dropped line && ltb (line - screen.dropped) screen.lines

unfoldable pub word : TerminalScreen → TerminalPoint → TerminalSelection → TerminalSelection
word screen point s =
    let line = point.line - screen.dropped in
    if not (holds_line screen point.line) || not (word_cell screen line point.column)
    then begin_at point false s
    else select
        (record { line = point.line; column = run_back (word_cell screen line) point.column })
        (record {
          line = point.line;
          column =
              run_on screen.columns (λ column. word_cell screen line (column + 1)) screen.columns
                point.column;
        })
        s

unfoldable pub whole_line : TerminalScreen → TerminalPoint → TerminalSelection → TerminalSelection
whole_line screen point s =
    let line = point.line - screen.dropped in
    if not (holds_line screen point.line)
    then begin_at point false s
    else select (record { line = screen.dropped + run_back screen.wraps line; column = 0 })
        (record {
          line = screen.dropped + run_on screen.lines screen.wraps screen.lines line;
          column = screen.columns - 1;
        })
        s

unfoldable pub select_all : TerminalScreen → TerminalSelection → TerminalSelection
select_all screen s =
    select (record { line = screen.dropped; column = 0 })
      (record { line = screen.dropped + (screen.lines - 1); column = screen.columns - 1 }) s

unfoldable pub clear : TerminalSelection → TerminalSelection
clear s = record s { anchor = none }

abbrev empty_at : TerminalPoint → Option TerminalPoint → Bool
empty_at extent none = true
empty_at extent (some a) = point_eq a extent

unfoldable pub empty : TerminalSelection → Bool
empty s = empty_at s.extent s.anchor

abbrev pub ordered_points : TerminalPoint → TerminalPoint → TerminalPoint × TerminalPoint
ordered_points a b = if point_leb a b then (a, b) else (b, a)

abbrev ordered_at : TerminalPoint → Option TerminalPoint → TerminalPoint × TerminalPoint
ordered_at extent none = (extent, extent)
ordered_at extent (some a) = ordered_points a extent

-- Only called on a selection that has an anchor.
unfoldable pub ordered : TerminalSelection → TerminalPoint × TerminalPoint
ordered s = ordered_at s.extent s.anchor

unfoldable pub contains : TerminalSelection → TerminalPoint → Bool
contains s point =
    let (from, to) = ordered s in
    if empty s
    then false
    else if s.rectangular
    then leb from.line point.line
      && leb point.line to.line
      && leb (min from.column to.column) point.column
      && leb point.column (max from.column to.column)
    else point_leb from point && point_leb point to

-- The cells of a line that are copied: from the first up to the last.
unfoldable pub row_first : TerminalSelection → ℕ → ℕ
row_first s line =
    let (from, to) = ordered s in
    if s.rectangular
    then min from.column to.column
    else if line == from.line
    then from.column
    else 0

unfoldable pub row_last : TerminalScreen → TerminalSelection → ℕ → ℕ
row_last screen s line =
    let (from, to) = ordered s in
    if s.rectangular
    then max from.column to.column + 1
    else if line == to.line
    then to.column + 1
    else screen.columns

abbrev without_blank : ℕ → Bytes → Bytes
without_blank x [] = if x == b' ' then [] else x ∷ []
without_blank x (y ∷ rest) = x ∷ y ∷ rest

-- `row.erase(row.find_last_not_of(' ') + 1)`.
unfoldable pub trim_end : Bytes → Bytes
trim_end [] = []
trim_end (x ∷ row) = without_blank x (trim_end row)

-- The loop of `text`, over the lines that are left.
unfoldable pub copy_rows : TerminalScreen → TerminalSelection → ℕ → ℕ → Bytes
copy_rows screen s zero stable = []
copy_rows screen s (suc rounds) stable =
    let (from, to) = ordered s in
    let line = stable - screen.dropped in
    let row = screen.text line (row_first s stable) (row_last screen s stable) in
    let wraps = not s.rectangular && screen.wraps line && not (stable == to.line) in
    let written = if wraps then row else trim_end row in
    let ending = if not wraps && not (stable == to.line) then b'\n' ∷ [] else [] in
    let rest = copy_rows screen s rounds (stable + 1) in
    if leb screen.lines line then [] else written ++ (ending ++ rest)

unfoldable pub text : TerminalScreen → TerminalSelection → Bytes
text screen s =
    let (from, to) = ordered s in
    let start = max from.line screen.dropped in
    if empty s then [] else copy_rows screen s (to.line + 1 - start) start
