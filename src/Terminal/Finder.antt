-- ===== src/Terminal/Finder.antt =====
-- `TerminalFinder` of src/ui/components/terminal/TerminalFinder.cpp, over the screen of a terminal, a
-- parameter. Lines are numbered from the start of the terminal or from the first line that is held; the
-- numbers stay below the bounds of their types. The matcher of a line is `Search.Matcher`.
pub mod Lines
pub mod Scanning
pub mod Refreshing
pub mod History
pub mod Examples
use workpane.Prelude.{
  ℕ, zero, suc, ◌+◌, ◌-◌, Bool, true, false, not, ◌&&◌, ◌||◌, List, [], ◌∷◌, ◌++◌, Option, none,
  some, map, min, max, ltb, leb, ◌==◌, if◌then◌else◌, length, get_or, get_elem?, replicate,
}
use workpane.Prelude.Int.{ℤ}
use workpane.Prelude.Bytes.{Bytes}
use workpane.Search.CodeFinder.{rem, plus, to_index}
use workpane.Search.Matcher.{Match, TextMatcher, matcher, find_matches, nothing}
use workpane.Terminal.Selection.{TerminalPoint, TerminalScreen, point_leb, point_eq}

pub record TerminalMatch : Type 0 where
  pub from : TerminalPoint
  pub to : TerminalPoint

pub record TerminalFinder : Type 0 where
  pub written : Bytes
  pub case_sensitive : Bool
  pub whole_word : Bool
  pub active : Bool
  pub bounded : Bool
  pub searching : Bool
  pub fresh : Bool
  pub matches : List TerminalMatch
  pub reading : ℕ
  pub scanned : ℕ

abbrev pub maximum_matches : ℕ
maximum_matches = 999

abbrev pub lines_per_step : ℕ
lines_per_step = 2000

abbrev pub initial : TerminalFinder
initial = record {
  written = [];
  case_sensitive = false;
  whole_word = false;
  active = false;
  bounded = false;
  searching = false;
  fresh = false;
  matches = [];
  reading = 0;
  scanned = 0;
}

abbrev pub none_left : List TerminalMatch → Bool
none_left [] = true
none_left (x ∷ xs) = false

-- The first loop of `scan`: the text of a row from a column on, and the column of each of its bytes.
unfoldable pub cells : TerminalScreen → ℕ → ℕ → ℕ → Bytes × List ℕ
cells screen line zero column = ([], [])
cells screen line (suc n) column =
    let cell = screen.text line column (column + 1) in
    let (row, columns) = cells screen line n (column + 1) in
    (cell ++ row, replicate (length cell) column ++ columns)

abbrev pub row_of : TerminalScreen → ℕ → Bytes × List ℕ
row_of screen line = cells screen line screen.columns 0

abbrev pub placed : ℕ → List ℕ → Match → TerminalMatch
placed stable columns x = record {
  from = record { line = stable; column = get_or columns x.start 0 };
  to = record { line = stable; column = get_or columns (x.end - 1) 0 };
}

unfoldable pub scan : TerminalScreen → ℕ → TextMatcher → List TerminalMatch → List TerminalMatch
scan screen line m matches =
    matches
    ++ map (placed (screen.dropped + line) (row_of screen line).1)
        (find_matches m (row_of screen line).0 (maximum_matches - length matches))

-- The loop of `refresh` over the lines that are left, and the line at which it breaks.
unfoldable pub scan_lines :
    ℕ → TerminalScreen → ℕ → TextMatcher → List TerminalMatch → List TerminalMatch × Option ℕ
scan_lines zero screen line m matches = (matches, none)
scan_lines (suc n) screen line m matches =
    let more = scan screen line m matches in
    let rest = scan_lines n screen (line + 1) m more in
    if leb maximum_matches (length more) then (more, some line) else rest

-- `std::erase_if(m_matches, …)`.
unfoldable pub kept_matches : ℕ → ℕ → List TerminalMatch → List TerminalMatch
kept_matches first from [] = []
kept_matches first from (x ∷ xs) =
    let rest = kept_matches first from xs in
    if ltb x.from.line first || leb from x.from.line then rest else x ∷ rest

unfoldable pub current : TerminalFinder → Option TerminalMatch
current f = if none_left f.matches || f.fresh then none else get_elem? f.matches f.reading

abbrev pub last_index : List TerminalMatch → ℕ
last_index matches = length matches - 1

unfoldable pub index_of : TerminalPoint → ℕ → List TerminalMatch → Option ℕ
index_of point i [] = none
index_of point i (x ∷ xs) = if point_eq x.from point then some i else index_of point (i + 1) xs

abbrev found_again : Option TerminalMatch → List TerminalMatch → Option ℕ
found_again none matches = none
found_again (some x) matches = index_of x.from 0 matches

abbrev or_nearest : ℕ → List TerminalMatch → Option ℕ → ℕ
or_nearest reading matches (some i) = i
or_nearest reading matches none = min reading (last_index matches)

abbrev stopped : Option ℕ → Bool
stopped none = false
stopped (some line) = true

abbrev scanned_to : ℕ → ℕ → Option ℕ → ℕ
scanned_to until first none = until
scanned_to until first (some line) = min until (first + line)

-- What follows the loop over the lines.
unfoldable pub chosen : Option TerminalMatch → TerminalFinder → TerminalFinder × Bool
chosen previous f =
    if f.fresh && not f.searching
    then (record f { fresh = false; reading = last_index f.matches }, true)
    else (
      record f { reading = or_nearest f.reading f.matches (found_again previous f.matches) },
      false,
    )

abbrev pub shown_of : TerminalScreen → ℕ
shown_of screen = screen.dropped + screen.history

abbrev pub from_of : TerminalScreen → TerminalFinder → ℕ
from_of screen f = max screen.dropped (min f.scanned (shown_of screen))

abbrev pub until_of : TerminalScreen → TerminalFinder → ℕ
until_of screen f = min (shown_of screen) (from_of screen f + lines_per_step)

abbrev pub last_of : TerminalScreen → TerminalFinder → ℕ
last_of screen f =
    if ltb (until_of screen f) (shown_of screen)
    then until_of screen f - screen.dropped
    else screen.lines

abbrev pub sought : TerminalFinder → TextMatcher
sought f = matcher f.written f.case_sensitive f.whole_word

-- The loop over the lines, from the first one that may have changed.
abbrev pub read_lines : TerminalScreen → TerminalFinder → List TerminalMatch × Option ℕ
read_lines screen f =
    let first = screen.dropped in
    let from = from_of screen f in
    scan_lines (last_of screen f - (from - first)) screen (from - first) (sought f)
      (kept_matches first from f.matches)

abbrev pub read_finder :
    TerminalScreen → TerminalFinder → List TerminalMatch × Option ℕ → TerminalFinder
read_finder screen f (matches, stop) = record f {
  matches = matches;
  bounded = stopped stop;
  searching = ltb (until_of screen f) (shown_of screen) && not (stopped stop);
  scanned = scanned_to (until_of screen f) screen.dropped stop;
}

unfoldable pub refresh : TerminalScreen → TerminalFinder → TerminalFinder × Bool
refresh screen f =
    if not f.active || nothing f.written
    then (record f { matches = []; bounded = false; searching = false; fresh = false }, false)
    else chosen (current f) (read_finder screen f (read_lines screen f))

unfoldable pub search : TerminalScreen → Bytes → Bool → Bool → TerminalFinder → TerminalFinder
search screen written case_sensitive whole_word f =
    (refresh screen (record f {
      written = written;
      case_sensitive = case_sensitive;
      whole_word = whole_word;
      active = true;
      fresh = true;
      reading = 0;
      matches = [];
      scanned = 0;
    })).0

unfoldable pub step : ℤ → TerminalFinder → TerminalFinder
step direction f =
    let size = length f.matches in
    if size == 0 then f else record f {
      reading = to_index (rem (plus size (rem (plus f.reading direction) size)) size);
    }

unfoldable pub close : TerminalFinder → TerminalFinder
close f = record f { active = false; matches = []; written = [] }

abbrev pub is_searching : TerminalFinder → Bool
is_searching f = f.active && f.searching

unfoldable pub count : TerminalFinder → ℕ
count f = length f.matches

unfoldable pub is_bounded : TerminalFinder → Bool
is_bounded f = f.bounded || is_searching f

unfoldable pub position : TerminalFinder → ℕ
position f = if none_left f.matches || f.fresh then 0 else f.reading + 1
