-- ===== src/Search/CodeFinder.antt =====
-- `CodeFinder` of src/ui/components/views/CodeFinder.cpp. The editor is a third-party library, of which
-- the finder reads the texts of the lines; they do not change during a search. The order of its places,
-- `start >= m_from`, is a parameter.
pub mod Glyphs
pub mod Scanning
pub mod Finishing
pub mod Ending
pub mod Steps
pub mod Examples
use workpane.Prelude.{
  get_elem?, ℕ, zero, suc, ◌+◌, ◌-◌, ◌%◌, Bool, true, false, not, ◌&&◌, ◌||◌, List, [], ◌∷◌, ◌++◌,
  Option, none, some, length, get_or, ltb, leb, min, max, ◌==◌, between, if◌then◌else◌,
}
use workpane.Prelude.Int.{ℤ, pos, negsuc}
use workpane.Prelude.Bytes.{Bytes}
use workpane.Search.Matcher.{Match, TextMatcher, matcher, nothing, find_matches}

abbrev pub maximum_matches : ℕ
maximum_matches = 9999

abbrev pub lines_per_step : ℕ
lines_per_step = 4000

-- A place in the document, by its line and the glyphs before it there.
pub record DocPos : Type 0 where
  pub line : ℕ
  pub index : ℕ

pub record DocSelection : Type 0 where
  pub start : DocPos
  pub end : DocPos

pub record CodeFinder : Type 0 where
  pub reading : Option TextMatcher
  pub from : DocPos
  pub next_line : ℕ
  pub matches : List DocSelection
  pub current : ℕ
  pub placed : Bool
  pub active : Bool
  pub bounded : Bool

abbrev pub initial : CodeFinder
initial = record {
  reading = none;
  from = record { line = 0; index = 0 };
  next_line = 0;
  matches = [];
  current = 0;
  placed = false;
  active = false;
  bounded = false;
}

-- `(byte & 0xC0) != 0x80`: the bytes that begin a character.
abbrev pub begins_glyph : ℕ → ℕ
begins_glyph x = if between 0x80 0xBF x then 0 else 1

-- The loop of `glyphsUntil`, over the bytes that are left to count.
unfoldable pub count_glyphs : ℕ → Bytes → ℕ → ℕ → ℕ
count_glyphs zero written byte glyph = glyph
count_glyphs (suc rounds) written byte glyph =
    count_glyphs rounds written (byte + 1) (glyph + begins_glyph (get_or written byte 0))

abbrev has_text : Option TextMatcher → Bool
has_text none = false
has_text (some m) = not (nothing m.needle)

unfoldable pub searching : CodeFinder → Bool
searching f = f.active && has_text f.reading

-- A search that reached its end reads the first match, if none was placed.
abbrev pub settled : CodeFinder → CodeFinder
settled f = record f { reading = none; current = if f.placed then f.current else 0; placed = true }

module _ (reaches : DocPos → DocPos → Bool) where
  -- A match joins the others, and the first one at or behind the start of the search is read.
  unfoldable pub push : DocSelection → CodeFinder → CodeFinder
  push selection f =
      let found = f.matches ++ selection ∷ [] in
      if not f.placed && reaches selection.start f.from
      then record f { matches = found; current = length found - 1; placed = true }
      else record f { matches = found }

  -- The loop of `scan`, with the bytes and glyphs counted up to the last start and the last end.
  unfoldable pub scan_matches : Bytes → ℕ → ℕ → ℕ → ℕ → ℕ → List Match → CodeFinder → CodeFinder
  scan_matches written line start_byte start_glyph end_byte end_glyph [] f = f
  scan_matches written line start_byte start_glyph end_byte end_glyph (match ∷ matches) f =
      let start = count_glyphs (match.start - start_byte) written start_byte start_glyph in
      let end = count_glyphs (match.end - end_byte) written end_byte end_glyph in
      scan_matches written line (max start_byte match.start) start (max end_byte match.end) end
        matches
        (push
          (record {
            start = record { line = line; index = start };
            end = record { line = line; index = end };
          })
          f)

  abbrev pub scan_by : Option TextMatcher → List Bytes → ℕ → CodeFinder → CodeFinder
  scan_by none lines line f = f
  scan_by (some m) lines line f =
      scan_matches (get_or lines line []) line 0 0 0 0
        (find_matches m (get_or lines line []) (maximum_matches - length f.matches)) f

  -- Only called while a matcher is there.
  unfoldable pub scan : List Bytes → ℕ → CodeFinder → CodeFinder
  scan lines line f = scan_by f.reading lines line f

  abbrev scanned : List Bytes → CodeFinder → CodeFinder
  scanned lines f =
      let read = scan lines f.next_line f in
      record read {
        bounded = leb maximum_matches (length read.matches);
        next_line = f.next_line + 1;
      }

  -- The loop of `advance` over the lines of one step.
  unfoldable pub advance_lines : ℕ → List Bytes → CodeFinder → CodeFinder
  advance_lines zero lines f = f
  advance_lines (suc rounds) lines f = elim f.bounded [
    | true ↦ f
    | false ↦ advance_lines rounds lines (scanned lines f)
  ]

  unfoldable pub advance : List Bytes → CodeFinder → CodeFinder × Bool
  advance lines f =
      let last = min (length lines) (f.next_line + lines_per_step) in
      let read = advance_lines (last - f.next_line) lines f in
      if not (searching f)
      then (f, false)
      else if not read.bounded && ltb read.next_line (length lines)
      then (read, read.placed && not f.placed)
      else (settled read, not f.placed)

  unfoldable pub search : List Bytes → Bytes → Bool → Bool → DocPos → CodeFinder → CodeFinder
  search lines text case_sensitive whole_word from f =
      (advance lines (record {
        reading = some (matcher text case_sensitive whole_word);
        from = from;
        next_line = 0;
        matches = [];
        current = 0;
        placed = false;
        active = true;
        bounded = false;
      })).0

  -- `while (searching()) advance(editor);`
  unfoldable pub finish : ℕ → List Bytes → CodeFinder → CodeFinder
  finish zero lines f = f
  finish (suc fuel) lines f = elim (searching f) [
    | false ↦ f
    | true ↦ finish fuel lines (advance lines f).0
  ]

-- `%` of signed numbers rounds towards zero.
abbrev pub rem : ℤ → ℕ → ℤ
rem (pos n) size = pos (n % size)
rem (negsuc n) size = if suc n % size == 0 then pos 0 else negsuc (suc n % size - 1)

abbrev pub plus : ℕ → ℤ → ℤ
plus n (pos k) = pos (n + k)
plus n (negsuc k) = if ltb k n then pos (n - suc k) else negsuc (k - n)

abbrev pub to_index : ℤ → ℕ
to_index (pos n) = n
to_index (negsuc n) = 0

unfoldable pub step : ℤ → CodeFinder → CodeFinder
step direction f =
    let size = length f.matches in
    if size == 0 then f else record f {
      current = to_index (rem (plus size (rem (plus f.current direction) size)) size);
    }

unfoldable pub close : CodeFinder → CodeFinder
close f = record f { active = false; reading = none; matches = [] }

unfoldable pub count : CodeFinder → ℕ
count f = length f.matches

unfoldable pub is_bounded : CodeFinder → Bool
is_bounded f = f.bounded || searching f

unfoldable pub position : CodeFinder → ℕ
position f = if length f.matches == 0 || not f.placed then 0 else f.current + 1

-- The match being read.
unfoldable pub current_match : CodeFinder → Option DocSelection
current_match f =
    if length f.matches == 0 || not f.placed then none else get_elem? f.matches f.current
