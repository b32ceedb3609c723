-- ===== src/Terminal/Finder/Examples.antt =====
-- A terminal of two rows of four cells, with a line in its history, and the same one after three more lines.
use workpane.Prelude.{ℕ, ◌+◌, ◌-◌, ◌≤◌, ◌≡◌, refl, true, false, [], ◌∷◌, take, drop, get_or, arith}
use workpane.Prelude.Int.{negsuc}
use workpane.Prelude.Bytes.{Bytes, codes}
use workpane.Search.Matcher.{folded, matcher, find_matches, find_loop, next_occurrence}
use workpane.Terminal.Selection.{TerminalScreen}
use workpane.Terminal.Finder.{
  TerminalFinder, initial, maximum_matches, search, refresh, step, position, count, cells, scan,
  scan_lines, chosen, kept_matches, current, index_of, row_of,
}
use workpane.Terminal.Finder.Lines.{span}
use workpane.Terminal.Finder.Scanning.{rows}
use workpane.Terminal.Finder.Refreshing.{covered, m}
use workpane.Terminal.Finder.History.{Follows, searched, refreshed, stepped, matches-Seen}

abbrev lines_of : ℕ → Bytes
lines_of n =
    get_or
      (codes "abab" ∷ codes "-ab-" ∷ codes "----" ∷ codes "ab--" ∷ codes "----" ∷ codes "--ab" ∷ [])
      n []

abbrev screen_at : ℕ → ℕ → TerminalScreen
screen_at dropped history = record {
  lines = history + 2;
  columns = 4;
  history = history;
  dropped = dropped;
  wraps = λ n. false;
  text = λ line from to. drop from (take to (lines_of (dropped + line)));
}

abbrev early : TerminalScreen
early = screen_at 0 1

abbrev late : TerminalScreen
late = screen_at 1 3

abbrev found : TerminalFinder
found = search early (codes "ab") true false initial

abbrev refound : TerminalFinder
refound = (refresh late found).0

three_found : count found ≡ 3
unfolding search refresh count cells scan scan_lines chosen kept_matches matcher folded find_matches
    find_loop next_occurrence
three_found = refl

newest_read : position found ≡ 3
unfolding search refresh position cells scan scan_lines chosen kept_matches matcher folded
    find_matches find_loop next_occurrence
newest_read = refl

two_dropped : count refound ≡ 3
unfolding search refresh count cells scan scan_lines chosen kept_matches matcher folded find_matches
    find_loop next_occurrence current index_of
two_dropped = refl

-- The match that was read is the first one now.
still_read : position refound ≡ 1
unfolding search refresh position cells scan scan_lines chosen kept_matches matcher folded
    find_matches find_loop next_occurrence current index_of
still_read = refl

same_text : (l : ℕ) → 1 ≤ l → row_of late (l - 1) ≡ row_of early (l - 0)
unfolding cells
same_text l h =
    let p : 1 + (l - 1) ≡ l = omega (arith, h) in
    let q : 0 + (l - 0) ≡ l = omega arith in rw (p, q) refl

late-Follows : Follows early late
late-Follows = record {
  whole = omega arith;
  drops = omega arith;
  same_cells = λ l a b c. same_text l a;
}

matches-Seen_example :
    (step (negsuc 0) refound).matches
    ≡ take maximum_matches (
        span
          (m (codes "ab") true false refl)
          (rows late)
          1
          (covered (codes "ab") true false refl late (step (negsuc 0) refound)))
matches-Seen_example =
    matches-Seen (codes "ab") true false refl late (step (negsuc 0) refound)
      (stepped (negsuc 0) (refreshed (searched initial (omega arith)) late-Follows))
