-- ===== src/Search/CodeFinder/Glyphs.antt =====
-- Glyphs counted from one match to the next are those before each match.
use workpane.Prelude.{
  ℕ, zero, suc, ◌+◌, ◌-◌, ◌≤◌, ◌≡◌, refl, sym, ◌∙◌, ap, ap₂, Bool, false, ◌&&◌, List, [], ◌∷◌, map,
  take, length, max, get_or, arith, Bool-cases, inl, inr, subst,
}
use workpane.Prelude.Bytes.{Bytes, starts_with}
use workpane.Search.Matcher.{Match, TextMatcher, accepted, folded, nothing, find_matches}
use workpane.Search.Matcher.Occurrences.{matches_from, find_matches-matches_from}
use workpane.Search.CodeFinder.{
  DocPos, DocSelection, CodeFinder, begins_glyph, count_glyphs, push, scan_matches,
}

-- The characters that begin before a byte.
abbrev pub glyphs : Bytes → ℕ → ℕ
glyphs written byte = count_glyphs byte written 0 0

count_glyphs-split :
    (a b : ℕ) (written : Bytes) (byte glyph : ℕ)
    → count_glyphs b written (byte + a) (count_glyphs a written byte glyph)
      ≡ count_glyphs (a + b) written byte glyph
unfolding count_glyphs
count_glyphs-split zero b written byte glyph =
    let p : b ≡ 0 + b = omega arith in
    let q : byte + 0 ≡ byte = omega arith in ap₂ (λ (n i : ℕ). count_glyphs n written i glyph) p q
count_glyphs-split (suc a) b written byte glyph =
    let p : suc a + b ≡ suc (a + b) = omega arith in
    let q : byte + suc a ≡ byte + 1 + a = omega arith in
    rw (p, q)
      (count_glyphs-split a b written (byte + 1) (glyph + begins_glyph (get_or written byte 0)))

glyphs-on :
    (written : Bytes) (byte until : ℕ)
    → byte ≤ until
    → count_glyphs (until - byte) written byte (glyphs written byte) ≡ glyphs written until
glyphs-on written byte until h =
    ap (λ (i : ℕ). count_glyphs (until - byte) written i (glyphs written byte)) (omega arith)
    ∙ count_glyphs-split byte (until - byte) written 0 0
    ∙ ap (λ (n : ℕ). count_glyphs n written 0 0) (omega arith)

-- Matches of one length that begin at or behind a place, in order.
abbrev pub Ascending : ℕ → ℕ → List Match → Type 0
Ascending size place [] = Unit
Ascending size place (m ∷ matches) =
    (place ≤ m.start) × (m.end ≡ m.start + size) × Ascending size m.start matches

Ascending-weaken :
    (size a b : ℕ) (matches : List Match)
    → a ≤ b
    → Ascending size b matches
    → Ascending size a matches
Ascending-weaken size a b [] h g = tt
Ascending-weaken size a b (m ∷ matches) h g = (omega (arith, g.0), g.1, g.2)

matches_from-Ascending :
    (m : TextMatcher) (haystack : Bytes) (index : ℕ) (rest : Bytes)
    → Ascending (length m.needle) index (matches_from m haystack index rest)
unfolding matches_from
matches_from-Ascending m haystack index [] = tt
matches_from-Ascending m haystack index (x ∷ rest) =
    let ih =
      Ascending-weaken (length m.needle) index (index + 1) _ (omega arith)
        (matches_from-Ascending m haystack (index + 1) rest) in
    elim (Bool-cases (starts_with m.needle (x ∷ rest) && accepted m haystack index)) [
      | inl e ↦ rw e (omega arith, refl, ih)
      | inr e ↦ rw e ih
    ]

take-Ascending :
    (n size place : ℕ) (matches : List Match)
    → Ascending size place matches
    → Ascending size place (take n matches)
take-Ascending zero size place matches h = tt
take-Ascending (suc n) size place [] h = tt
take-Ascending (suc n) size place (m ∷ matches) h =
    (h.0, h.1, take-Ascending n size m.start matches h.2)

pub find_matches-Ascending :
    (m : TextMatcher) (line : Bytes) (limit : ℕ)
    → nothing m.needle ≡ false
    → Ascending (length m.needle) 0 (find_matches m line limit)
find_matches-Ascending m line limit h =
    let haystack = folded line m.case_sensitive in
    subst (Ascending (length m.needle) 0) (sym (find_matches-matches_from m line limit h)) (
      take-Ascending limit (length m.needle) 0 (matches_from m haystack 0 haystack)
        (matches_from-Ascending m haystack 0 haystack))

-- A match by the glyphs before its first and behind its last byte.
abbrev pub selection_of : Bytes → ℕ → Match → DocSelection
selection_of written line m = record {
  start = record { line = line; index = glyphs written m.start };
  end = record { line = line; index = glyphs written m.end };
}

module _ (reaches : DocPos → DocPos → Bool) where
  unfoldable pub push_all : List DocSelection → CodeFinder → CodeFinder
  push_all [] f = f
  push_all (selection ∷ selections) f = push_all selections (push reaches selection f)

  scan_matches-counted :
      (written : Bytes) (line size start end : ℕ) (matches : List Match) (f : CodeFinder)
      → Ascending size start matches
      → end ≤ start + size
      → scan_matches reaches written line start
          (glyphs written start)
          end
          (glyphs written end)
          matches
          f
        ≡ push_all (map (selection_of written line) matches) f
  unfolding scan_matches push_all
  scan_matches-counted written line size start end [] f h g = refl
  scan_matches-counted written line size start end (m ∷ matches) f (a, b, c) g =
      let p = glyphs-on written start m.start a in
      let q = glyphs-on written end m.end (omega (arith, b)) in
      let r : max start m.start ≡ m.start = omega arith in
      let s : max end m.end ≡ m.end = omega (arith, b) in
      rw (p, q, r, s)
        (scan_matches-counted written line size m.start m.end matches
          (push reaches (selection_of written line m) f) c (omega (arith, b)))

-- The matches of a line, by their glyphs.
abbrev pub line_selections : TextMatcher → ℕ → Bytes → List DocSelection
line_selections m line written =
    let haystack = folded written m.case_sensitive in
    map (selection_of written line) (matches_from m haystack 0 haystack)

map-take :
    (written : Bytes) (line n : ℕ) (matches : List Match)
    → map (selection_of written line) (take n matches)
      ≡ take n (map (selection_of written line) matches)
map-take written line zero matches = refl
map-take written line (suc n) [] = refl
map-take written line (suc n) (m ∷ matches) =
    ap (λ (l : List DocSelection). selection_of written line m ∷ l)
      (map-take written line n matches)

module _ (reaches : DocPos → DocPos → Bool) where
  pub scan_matches-line_selections :
      (m : TextMatcher) (written : Bytes) (line limit : ℕ) (f : CodeFinder)
      → nothing m.needle ≡ false
      → scan_matches reaches written line 0 0 0 0 (find_matches m written limit) f
        ≡ push_all reaches (take limit (line_selections m line written)) f
  unfolding count_glyphs
  scan_matches-line_selections m written line limit f h =
      let haystack = folded written m.case_sensitive in
      scan_matches-counted reaches written line (length m.needle) 0 0 (find_matches m written limit)
        f (find_matches-Ascending m written limit h) (omega arith)
      ∙ ap (λ (l : List Match). push_all reaches (map (selection_of written line) l) f)
          (find_matches-matches_from m written limit h)
      ∙ ap (λ (l : List DocSelection). push_all reaches l f)
          (map-take written line limit (matches_from m haystack 0 haystack))
