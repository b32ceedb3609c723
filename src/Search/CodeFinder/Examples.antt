-- ===== src/Search/CodeFinder/Examples.antt =====
-- A search over two lines, the second with a character of two bytes.
use workpane.Prelude.{true, ◌≡◌, refl, Bool, false, List, [], ◌∷◌, some, ltb, leb, ◌==◌, ◌&&◌, ◌||◌}
use workpane.Prelude.Bytes.{Bytes, codes}
use workpane.Search.Matcher.{matcher, nothing, folded, find_matches, find_loop, next_occurrence}
use workpane.Search.CodeFinder.{
  DocPos, initial, count_glyphs, push, scan_matches, scan, searching, advance_lines, advance,
  search, finish, current_match,
}
use workpane.Search.CodeFinder.Finishing.{IsRead}
use workpane.Prelude.Int.{pos}
use workpane.Search.CodeFinder.{step, CodeFinder}
use workpane.Search.CodeFinder.Ending.{finish-search-IsRead}

abbrev document : List Bytes
document = codes "one" ∷ (195 ∷ 169 ∷ codes " none") ∷ []

abbrev second_line : DocPos
second_line = record { line = 1; index = 0 }

abbrev at_or_behind : DocPos → DocPos → Bool
at_or_behind a b = ltb b.line a.line || b.line == a.line && leb b.index a.index

not_empty : nothing (matcher (codes "One") false false).needle ≡ false
unfolding matcher folded
not_empty = refl

finish-search-IsRead_example :
    IsRead (matcher (codes "One") false false) document at_or_behind second_line not_empty (
      finish at_or_behind 3 document
        (search at_or_behind document (codes "One") false false second_line initial))
finish-search-IsRead_example =
    finish-search-IsRead (codes "One") false false document at_or_behind second_line initial
      not_empty

-- The second match begins behind three characters, and is the one read from the second line on.
one_found :
    current_match (
      finish at_or_behind 3 document
        (search at_or_behind document (codes "One") false false second_line initial))
    ≡ some (record { start = record { line = 1; index = 3 }; end = record { line = 1; index = 6 } })
unfolding matcher folded find_matches find_loop next_occurrence count_glyphs push scan_matches scan
    searching advance_lines advance search finish current_match
one_found = refl

abbrev two_found : CodeFinder
two_found = record initial {
  matches =
      record { start = second_line; end = second_line }
      ∷ record { start = second_line; end = second_line }
      ∷ [];
  current = 1;
  placed = true;
}

-- Behind the last match is the first.
wrapped : (step (pos 1) two_found).current ≡ 0
unfolding step
wrapped = refl
