-- ===== src/Terminal/Finder/History.antt =====
-- What a finder holds after any refreshes, while the lines in the history of the screen stay as they are.
use workpane.Prelude.{
  ℕ, ◌+◌, ◌-◌, ◌≤◌, ◌<◌, ◌≡◌, refl, sym, ◌∙◌, ap, Bool, true, false, ◌||◌, List, [], ◌∷◌, ◌++◌,
  Bool-cases, inl, inr, ltb, leb, ◌==◌, length, length-append, take, arith, min, max,
}
use workpane.Prelude.Int.{ℤ}
use workpane.Prelude.Bytes.{Bytes}
use workpane.Search.Matcher.{TextMatcher, nothing}
use workpane.Terminal.Selection.{TerminalScreen}
use workpane.Terminal.Finder.{
  TerminalMatch, TerminalFinder, maximum_matches, kept_matches, shown_of, from_of, refresh, search,
  step, row_of,
}
use workpane.Terminal.Finder.Lines.{span, span-split, span-eq, kept-span, kept-span_later}
use workpane.Terminal.Finder.Scanning.{rows, take-append_more}
use workpane.Terminal.Finder.Refreshing.{
  IsWhole, m, covered, IsRead, IsReady, refresh-IsRead, shorter,
}

-- A later screen: it has dropped no fewer lines, and every line that is in the history of both has the
-- same cells.
pub record Follows (screen later : TerminalScreen) : Type 0 where
  pub whole : IsWhole later
  pub drops : screen.dropped ≤ later.dropped
  pub same_cells :
      (l : ℕ)
      → later.dropped ≤ l
      → l < later.dropped + later.history
      → l < screen.dropped + screen.history
      → row_of later (l - later.dropped) ≡ row_of screen (l - screen.dropped)

module _ (written : Bytes) (case_sensitive whole_word : Bool)
    (named : nothing written ≡ false) where
  abbrev t : TextMatcher
  t = m written case_sensitive whole_word named

  abbrev Read : TerminalScreen → TerminalFinder → Type 0
  Read = IsRead written case_sensitive whole_word named

  abbrev Ready : TerminalScreen → TerminalFinder → Type 0
  Ready = IsReady written case_sensitive whole_word named

  -- The finder after a search for the text, and any refreshes with later screens and steps.
  pub data Seen : TerminalScreen → TerminalFinder → Type 0 where
    searched :
        {screen : TerminalScreen} (f : TerminalFinder)
        → IsWhole screen
        → Seen screen (search screen written case_sensitive whole_word f)
    refreshed :
        {screen later : TerminalScreen} {f : TerminalFinder}
        → Seen screen f
        → Follows screen later
        → Seen later (refresh later f).0
    stepped :
        {screen : TerminalScreen} {f : TerminalFinder} (direction : ℤ)
        → Seen screen f
        → Seen screen (step direction f)

  -- Between equal lines there is none.
  kept_none : (first : ℕ) (xs : List TerminalMatch) → kept_matches first first xs ≡ []
  unfolding kept_matches
  kept_none first [] = refl
  kept_none first (x ∷ xs) =
      let e : (ltb x.from.line first || leb first x.from.line) ≡ true = ground arith in
      rw e (kept_none first xs)

  -- The lines that are not read again are those of the earlier screen.
  span-Follows :
      (screen later : TerminalScreen) (f : TerminalFinder)
      → Follows screen later
      → f.scanned ≤ shown_of screen
      → span t (rows later) later.dropped (from_of later f - later.dropped)
        ≡ span t (rows screen) later.dropped (from_of later f - later.dropped)
  span-Follows screen later f h b =
      span-eq t (rows later) (rows screen) later.dropped (from_of later f - later.dropped)
        (λ l p q. h.same_cells l p (omega (arith, p, q)) (omega (arith, p, q, b)))

  -- The matches that are held, before the first line that may change and from it on.
  found-split :
      (screen : TerminalScreen) (f : TerminalFinder)
      → Read screen f
      → f.matches
        ≡ span t (rows screen) screen.dropped (f.scanned - screen.dropped)
          ++ take
              (maximum_matches
                - length (span t (rows screen) screen.dropped (f.scanned - screen.dropped)))
              (span t (rows screen) f.scanned (
                covered written case_sensitive whole_word named screen f
                - (f.scanned - screen.dropped)))
  found-split screen f h =
      let c = covered written case_sensitive whole_word named screen f in
      let a = f.scanned - screen.dropped in
      let p : c ≡ a + (c - a) = omega (arith, h.reach) in
      let q : screen.dropped + a ≡ f.scanned = omega (arith, h.above) in
      h.found
      ∙ ap (λ n. take maximum_matches (span t (rows screen) screen.dropped n)) p
      ∙ ap (take maximum_matches) (span-split t (rows screen) screen.dropped a (c - a))
      ∙ take-append_more maximum_matches (span t (rows screen) screen.dropped a)
          (span t (rows screen) (screen.dropped + a) (c - a)) (omega (arith, h.few))
      ∙ ap
          (λ z.
            span t (rows screen) screen.dropped a
            ++ take (maximum_matches - length (span t (rows screen) screen.dropped a))
                (span t (rows screen) z (c - a)))
          q

  kept-Follows :
      (screen later : TerminalScreen) (f : TerminalFinder)
      → Read screen f
      → Follows screen later
      → later.dropped ≤ f.scanned
      → kept_matches later.dropped (from_of later f) f.matches
        ≡ span t (rows screen) later.dropped (from_of later f - later.dropped)
  kept-Follows screen later f h g k =
      let a = f.scanned - screen.dropped in
      let c = covered written case_sensitive whole_word named screen f in
      let rest =
        take (maximum_matches - length (span t (rows screen) screen.dropped a))
          (span t (rows screen) f.scanned (c - a)) in
      ap (kept_matches later.dropped (from_of later f)) (found-split screen f h)
      ∙ kept-span t (rows screen) screen.dropped a later.dropped (from_of later f) rest g.drops
          (omega arith) (omega (arith, k, h.above))
          (kept-span_later t (rows screen) f.scanned (c - a) later.dropped (from_of later f)
            (maximum_matches - length (span t (rows screen) screen.dropped a)) (omega (arith, k)))

  few-Follows :
      (screen later : TerminalScreen) (f : TerminalFinder)
      → Read screen f
      → Follows screen later
      → later.dropped ≤ f.scanned
      → length (span t (rows screen) later.dropped (from_of later f - later.dropped))
        < maximum_matches
  few-Follows screen later f h g k =
      let i = later.dropped - screen.dropped in
      let j = from_of later f - later.dropped in
      let p : screen.dropped + i ≡ later.dropped = omega (arith, g.drops) in
      let q =
        span-split t (rows screen) screen.dropped i j
        ∙ ap (λ z. span t (rows screen) screen.dropped i ++ span t (rows screen) z j) p in
      let s =
        shorter written case_sensitive whole_word named screen screen.dropped (i + j)
          (f.scanned - screen.dropped) (omega (arith, k, g.drops)) in
      let l =
        length-append (span t (rows screen) screen.dropped i)
          (span t (rows screen) later.dropped j) in
      let e = ap length q in omega (arith, s, l, e, h.few)

  Read-Ready :
      (screen later : TerminalScreen) (f : TerminalFinder)
      → Read screen f
      → Follows screen later
      → Ready later f
  unfolding span
  Read-Ready screen later f h g = elim (Bool-cases (leb later.dropped f.scanned)) [
    | inl e ↦
        let k : later.dropped ≤ f.scanned = ground (arith, e) in
        let s = span-Follows screen later f g h.below in
        record {
          whole = g.whole;
          seeks = h.seeks;
          names = h.names;
          active = h.active;
          few = rw s (few-Follows screen later f h g k);
          kept = kept-Follows screen later f h g k ∙ sym s;
        }
    | inr e ↦
        let k : from_of later f ≡ later.dropped = ground (arith, e) in
        let z : later.dropped - later.dropped ≡ 0 = omega arith in
        record {
          whole = g.whole;
          seeks = h.seeks;
          names = h.names;
          active = h.active;
          few = rw (k, z) (omega arith);
          kept = rw (k, z) (kept_none later.dropped f.matches);
        }
  ]

  search-Ready :
      (screen : TerminalScreen) (f : TerminalFinder)
      → IsWhole screen
      → Ready screen (record f {
        written = written;
        case_sensitive = case_sensitive;
        whole_word = whole_word;
        active = true;
        fresh = true;
        reading = 0;
        matches = [];
        scanned = 0;
      })
  unfolding span kept_matches
  search-Ready screen f h =
      let k : max screen.dropped (min 0 (shown_of screen)) - screen.dropped ≡ 0 = omega arith in
      record {
        whole = h;
        seeks = refl;
        names = named;
        active = refl;
        few = rw k (omega arith);
        kept = rw k refl;
      }

  step-Read :
      (direction : ℤ) (screen : TerminalScreen) (f : TerminalFinder)
      → Read screen f
      → Read screen (step direction f)
  unfolding step
  step-Read direction screen f h = elim (Bool-cases (length f.matches == 0)) [
    | inl e ↦ rw (step, e) h
    | inr e ↦
        rw (step, e)
          (record {
            whole = h.whole;
            seeks = h.seeks;
            names = h.names;
            active = h.active;
            above = h.above;
            below = h.below;
            reach = h.reach;
            few = h.few;
            found = h.found;
          })
  ]

  Seen-Read : (screen : TerminalScreen) (f : TerminalFinder) → Seen screen f → Read screen f
  unfolding search
  Seen-Read screen f' (searched f h) =
      refresh-IsRead written case_sensitive whole_word named screen _ (search-Ready screen f h)
  Seen-Read later f' (refreshed {screen = screen} {f = f} s g) =
      refresh-IsRead written case_sensitive whole_word named later f
        (Read-Ready screen later f (Seen-Read screen f s) g)
  Seen-Read screen f' (stepped {f = f} direction s) =
      step-Read direction screen f (Seen-Read screen f s)

  -- After a search for a text that is not empty and any refreshes and steps, where no line in the history of
  -- a screen and the one before it differs, the finder holds the first 999 matches of the lines it has
  -- covered, in order: of the whole screen, or while it searches of those read so far.
  pub matches-Seen :
      (screen : TerminalScreen) (f : TerminalFinder)
      → Seen screen f
      → f.matches
        ≡ take maximum_matches (
            span t
              (rows screen)
              screen.dropped
              (covered written case_sensitive whole_word named screen f))
  matches-Seen screen f s = (Seen-Read screen f s).found
