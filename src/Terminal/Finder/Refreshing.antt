-- ===== src/Terminal/Finder/Refreshing.antt =====
-- A refresh of a finder that holds what it needs of the lines that it does not read again.
use workpane.Prelude.{
  ℕ, ◌+◌, ◌-◌, ◌≤◌, ◌<◌, ◌≡◌, refl, sym, ◌∙◌, ap, subst, Bool, true, false, not, ◌&&◌, ◌||◌, List,
  [], ◌∷◌, ◌++◌, Option, none, some, Bool-cases, inl, inr, ltb, length, length-append, take, arith,
  min, if◌then◌else◌,
}
use workpane.Prelude.Bytes.{Bytes}
use workpane.Search.Matcher.{TextMatcher, matcher, nothing, folded}
use workpane.Terminal.Selection.{TerminalScreen}
use workpane.Terminal.Finder.{
  TerminalMatch, TerminalFinder, maximum_matches, scan_lines, kept_matches, current, chosen,
  shown_of, from_of, until_of, last_of, sought, read_lines, read_finder, refresh,
}
use workpane.Terminal.Finder.Lines.{span, span-split}
use workpane.Terminal.Finder.Scanning.{
  rows, AreScanned, scan_lines-AreScanned, take_all, take-append_less,
}

-- A screen holds the lines of its history and the rows below them.
abbrev pub IsWhole : TerminalScreen → Type 0
IsWhole screen = screen.history ≤ screen.lines

folded-nothing :
    (case_sensitive : Bool) (xs : Bytes)
    → nothing xs ≡ false
    → nothing (folded xs case_sensitive) ≡ false
unfolding folded
folded-nothing case_sensitive [] h = cc
folded-nothing case_sensitive (x ∷ xs) h = refl

module _ (written : Bytes) (case_sensitive whole_word : Bool)
    (named : nothing written ≡ false) where
  abbrev pub m : TextMatcher
  m = matcher written case_sensitive whole_word

  needle : nothing m.needle ≡ false
  unfolding matcher
  needle = folded-nothing case_sensitive written named

  -- The lines that have been read, from the first one that is held.
  abbrev pub covered : TerminalScreen → TerminalFinder → ℕ
  covered screen f = if f.searching then f.scanned - screen.dropped else screen.lines

  pub record IsRead (screen : TerminalScreen) (f : TerminalFinder) : Type 0 where
    pub whole : IsWhole screen
    pub seeks : sought f ≡ m
    pub names : nothing f.written ≡ false
    pub active : f.active ≡ true
    pub above : screen.dropped ≤ f.scanned
    pub below : f.scanned ≤ shown_of screen
    pub reach : f.scanned ≤ screen.dropped + covered screen f
    pub few :
        length (span m (rows screen) screen.dropped (f.scanned - screen.dropped)) < maximum_matches
    pub found :
        f.matches ≡ take maximum_matches (span m (rows screen) screen.dropped (covered screen f))

  -- What a refresh starts from: of the lines before the first one that is read again all matches, and
  -- fewer than the bound.
  pub record IsReady (screen : TerminalScreen) (f : TerminalFinder) : Type 0 where
    pub whole : IsWhole screen
    pub seeks : sought f ≡ m
    pub names : nothing f.written ≡ false
    pub active : f.active ≡ true
    pub few :
        length (span m (rows screen) screen.dropped (from_of screen f - screen.dropped))
        < maximum_matches
    pub kept :
        kept_matches screen.dropped (from_of screen f) f.matches
        ≡ span m (rows screen) screen.dropped (from_of screen f - screen.dropped)

  chosen-IsRead :
      (screen : TerminalScreen) (previous : Option TerminalMatch) (f : TerminalFinder)
      → IsRead screen f
      → IsRead screen (chosen previous f).0
  unfolding chosen
  chosen-IsRead screen previous f h = elim (Bool-cases (f.fresh && not f.searching)) [
    | inl e ↦
        rw (chosen, e)
          (record {
            whole = h.whole;
            seeks = h.seeks;
            names = h.names;
            active = h.active;
            above = h.above;
            below = h.below;
            reach = h.reach;
            few = h.few;
            found = h.found;
          })
    | inr e ↦
        rw (chosen, e)
          (record {
            whole = h.whole;
            seeks = h.seeks;
            names = h.names;
            active = h.active;
            above = h.above;
            below = h.below;
            reach = h.reach;
            few = h.few;
            found = h.found;
          })
  ]

  -- The lines from the first one that is read again on, after those before it.
  joined :
      (screen : TerminalScreen) (from n : ℕ)
      → screen.dropped ≤ from
      → span m (rows screen) screen.dropped (from - screen.dropped)
          ++ span m (rows screen) (screen.dropped + (from - screen.dropped)) n
        ≡ span m (rows screen) screen.dropped (from - screen.dropped + n)
  joined screen from n h = sym (span-split m (rows screen) screen.dropped (from - screen.dropped) n)

  pub shorter :
      (screen : TerminalScreen) (start a b : ℕ)
      → a ≤ b
      → length (span m (rows screen) start a) ≤ length (span m (rows screen) start b)
  shorter screen start a b h =
      let p : b ≡ a + (b - a) = omega (arith, h) in
      let q = ap (span m (rows screen) start) p ∙ span-split m (rows screen) start a (b - a) in
      rw q (
        omega (
          arith,
          length-append (span m (rows screen) start a) (span m (rows screen) (start + a) (b - a)),
        ))

  last_of-from_of :
      (screen : TerminalScreen) (f : TerminalFinder)
      → IsWhole screen
      → from_of screen f - screen.dropped ≤ last_of screen f
  last_of-from_of screen f h = elim (Bool-cases (ltb (until_of screen f) (shown_of screen))) [
    | inl s ↦ rw s (omega arith)
    | inr s ↦ rw s (omega (arith, h))
  ]

  -- What the loop had before it and what it read, together.
  joined-last :
      (screen : TerminalScreen) (f : TerminalFinder)
      → IsWhole screen
      → span m (rows screen) screen.dropped (from_of screen f - screen.dropped)
          ++ span m
              (rows screen)
              (screen.dropped + (from_of screen f - screen.dropped))
              (last_of screen f - (from_of screen f - screen.dropped))
        ≡ span m (rows screen) screen.dropped (last_of screen f)
  joined-last screen f h =
      let from = from_of screen f - screen.dropped in
      let k = last_of-from_of screen f h in
      let p : from + (last_of screen f - from) ≡ last_of screen f = omega (arith, k) in
      joined screen (from_of screen f) (last_of screen f - from) (omega arith)
      ∙ ap (span m (rows screen) screen.dropped) p

  completed_refresh :
      (screen : TerminalScreen) (f : TerminalFinder) (found : List TerminalMatch)
      → IsReady screen f
      → found ≡ span m (rows screen) screen.dropped (last_of screen f)
      → length (span m (rows screen) screen.dropped (last_of screen f)) < maximum_matches
      → IsRead screen (read_finder screen f (found, none))
  completed_refresh screen f found g e h =
      let all = span m (rows screen) screen.dropped in
      elim (Bool-cases (ltb (until_of screen f) (shown_of screen))) [
        | inl s ↦
            let p : last_of screen f ≡ until_of screen f - screen.dropped = rw s refl in
            let h' = subst (λ n. length (all n) < maximum_matches) p h in
            record {
              whole = g.whole;
              seeks = g.seeks;
              names = g.names;
              active = g.active;
              above = omega arith;
              below = omega arith;
              reach = rw s (omega arith);
              few = h';
              found = rw s (
                  e
                  ∙ ap all p
                  ∙ sym (
                      take_all maximum_matches (all (until_of screen f - screen.dropped))
                        (omega (arith, h'))));
            }
        | inr s ↦
            let p : last_of screen f ≡ screen.lines = rw s refl in
            let h' = subst (λ n. length (all n) < maximum_matches) p h in
            record {
              whole = g.whole;
              seeks = g.seeks;
              names = g.names;
              active = g.active;
              above = omega arith;
              below = omega arith;
              reach = rw s (omega (arith, g.whole));
              few = omega (
                arith,
                h',
                shorter screen screen.dropped (until_of screen f - screen.dropped) screen.lines
                    (omega (arith, g.whole)),
              );
              found = rw s (
                  e
                  ∙ ap all p
                  ∙ sym (take_all maximum_matches (all screen.lines) (omega (arith, h'))));
            }
      ]

  -- A bound that the lines read so far reach is reached by all lines.
  take-lines :
      (screen : TerminalScreen) (n : ℕ)
      → n ≤ screen.lines
      → maximum_matches ≤ length (span m (rows screen) screen.dropped n)
      → take maximum_matches (span m (rows screen) screen.dropped n)
        ≡ take maximum_matches (span m (rows screen) screen.dropped screen.lines)
  take-lines screen n h k =
      let p : screen.lines ≡ n + (screen.lines - n) = omega (arith, h) in
      sym (
        ap (λ z. take maximum_matches (span m (rows screen) screen.dropped z)) p
        ∙ ap (take maximum_matches) (span-split m (rows screen) screen.dropped n (screen.lines - n))
        ∙ take-append_less maximum_matches (span m (rows screen) screen.dropped n)
            (span m (rows screen) (screen.dropped + n) (screen.lines - n)) k)

  last_of-lines :
      (screen : TerminalScreen) (f : TerminalFinder)
      → IsWhole screen
      → last_of screen f ≤ screen.lines
  last_of-lines screen f h = elim (Bool-cases (ltb (until_of screen f) (shown_of screen))) [
    | inl s ↦ rw s (omega (arith, h))
    | inr s ↦ rw s (omega arith)
  ]

  searching_off : (b : Bool) → (b && false) ≡ false
  searching_off true = refl
  searching_off false = refl

  stopped_refresh :
      (screen : TerminalScreen) (f : TerminalFinder) (found : List TerminalMatch) (stop : ℕ)
      → IsReady screen f
      → from_of screen f - screen.dropped ≤ stop
      → found ≡ take maximum_matches (span m (rows screen) screen.dropped (last_of screen f))
      → maximum_matches ≤ length (span m (rows screen) screen.dropped (last_of screen f))
      → length (span m (rows screen) screen.dropped stop) < maximum_matches
      → IsRead screen (read_finder screen f (found, some stop))
  stopped_refresh screen f found stop g a e c h =
      let q = searching_off (ltb (until_of screen f) (shown_of screen)) in
      let k = last_of-lines screen f g.whole in
      record {
        whole = g.whole;
        seeks = g.seeks;
        names = g.names;
        active = g.active;
        above = omega (arith, a);
        below = omega arith;
        reach = rw q (omega (arith, g.whole));
        few = omega (
          arith,
          h,
          shorter screen screen.dropped
              (min (until_of screen f) (screen.dropped + stop) - screen.dropped) stop (omega arith),
        );
        found = rw q (e ∙ take-lines screen (last_of screen f) k c);
      }

  read_finder-IsRead :
      (screen : TerminalScreen) (f : TerminalFinder) (r : List TerminalMatch × Option ℕ)
      → IsReady screen f
      → AreScanned screen m needle
          (last_of screen f - (from_of screen f - screen.dropped))
          (from_of screen f - screen.dropped)
          (span m (rows screen) screen.dropped (from_of screen f - screen.dropped))
          r
      → IsRead screen (read_finder screen f r)
  read_finder-IsRead screen f (found, none) g (e, h) =
      let j = joined-last screen f g.whole in
      completed_refresh screen f found g (e ∙ j)
        (subst (λ (l : List TerminalMatch). length l < maximum_matches) j h)
  read_finder-IsRead screen f (found, some stop) g (a, b, c, e, h) =
      let j = joined-last screen f g.whole in
      let from = from_of screen f - screen.dropped in
      let p : from + (stop - from) ≡ stop = omega (arith, a) in
      let i =
        joined screen (from_of screen f) (stop - from) (omega arith)
        ∙ ap (span m (rows screen) screen.dropped) p in
      stopped_refresh screen f found stop g a (e ∙ ap (take maximum_matches) j)
        (subst (λ (l : List TerminalMatch). maximum_matches ≤ length l) j c)
        (subst (λ (l : List TerminalMatch). length l < maximum_matches) i h)

  pub refresh-IsRead :
      (screen : TerminalScreen) (f : TerminalFinder)
      → IsReady screen f
      → IsRead screen (refresh screen f).0
  unfolding refresh
  refresh-IsRead screen f g =
      let from = from_of screen f - screen.dropped in
      let xs = span m (rows screen) screen.dropped from in
      let n = last_of screen f - from in
      let p : read_lines screen f ≡ scan_lines n screen from m xs = rw (g.seeks, g.kept) refl in
      let guard : (not f.active || nothing f.written) ≡ false = rw (g.active, g.names) refl in
      rw (refresh, guard)
        (chosen-IsRead screen (current f) (read_finder screen f (read_lines screen f)) (
          read_finder-IsRead screen f (read_lines screen f) g (
            subst (AreScanned screen m needle n from xs) (sym p)
              (scan_lines-AreScanned screen m needle n from xs g.few))))
