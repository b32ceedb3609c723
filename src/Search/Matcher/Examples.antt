-- ===== src/Search/Matcher/Examples.antt =====
-- Words and overlapping matches.
use workpane.Prelude.{◌≡◌, refl, true, false, [], ◌∷◌, take}
use workpane.Prelude.Bytes.{Bytes, codes}
use workpane.Search.Matcher.{
  TextMatcher, matcher, folded, find_matches, find_loop, next_occurrence, boundary,
}
use workpane.Search.Matcher.Occurrences.{matches_from, find_matches-matches_from}

abbrev upper : Bytes
upper = codes "aNa banana"

-- Without case, anywhere: occurrences overlap.
ana_anywhere :
    find_matches (matcher (codes "ANA") false false) upper 9
    ≡ record { start = 0; end = 3 }
      ∷ record { start = 5; end = 8 }
      ∷ record { start = 7; end = 10 }
      ∷ []
unfolding find_matches find_loop next_occurrence matcher folded
ana_anywhere = refl

abbrev words : TextMatcher
words = record { needle = codes "ana"; case_sensitive = false; whole_word = true }

find_matches-matches_from_example :
    find_matches words upper 9
    ≡ take 9 (matches_from words (folded upper false) 0 (folded upper false))
find_matches-matches_from_example = find_matches-matches_from words upper 9 refl

ana_word : find_matches words upper 9 ≡ record { start = 0; end = 3 } ∷ []
unfolding find_matches find_loop next_occurrence folded boundary
ana_word = refl
