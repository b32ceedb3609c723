-- ===== src/Search/CodeFinder/Ending.antt =====
-- A search reads the whole document, step by step, and then stops.
use workpane.Prelude.{
  ℕ, zero, suc, ◌-◌, ◌<◌, ◌≡◌, refl, sym, Bool, true, false, List, [], none, some, length, arith,
  inl, inr, subst, Bool-cases,
}
use workpane.Prelude.Bytes.{Bytes}
use workpane.Search.Matcher.{TextMatcher, matcher, nothing}
use workpane.Search.CodeFinder.{DocPos, CodeFinder, searching, advance, search, finish}
use workpane.Search.CodeFinder.Scanning.{first_from}
use workpane.Search.CodeFinder.Finishing.{
  first_lines, IsReading, IsRead, searching-IsReading, advance-cases,
}

idle : (f : CodeFinder) → f.reading ≡ none → searching f ≡ false
unfolding searching
idle f h = elim (Bool-cases f.active) [ inl e ↦ rw (e, h) refl | inr e ↦ rw e refl ]

finish-idle :
    (reaches : DocPos → DocPos → Bool) (fuel : ℕ) (lines : List Bytes) (f : CodeFinder)
    → searching f ≡ false
    → finish reaches fuel lines f ≡ f
unfolding finish
finish-idle reaches zero lines f h = refl
finish-idle reaches (suc fuel) lines f h = rw (h, finish) refl

module _ (m : TextMatcher) (lines : List Bytes) (reaches : DocPos → DocPos → Bool) (place : DocPos)
    (asked : nothing m.needle ≡ false) where
  finish-ended :
      (fuel : ℕ) (f : CodeFinder)
      → IsRead m lines reaches place asked f
      → IsRead m lines reaches place asked (finish reaches fuel lines f)
  finish-ended fuel f r =
      subst (IsRead m lines reaches place asked)
        (sym (finish-idle reaches fuel lines f (idle f r.ended))) r

  finish-IsReading :
      (fuel : ℕ) (f : CodeFinder)
      → IsReading m lines reaches place asked f
      → length lines - f.next_line < fuel
      → IsRead m lines reaches place asked (finish reaches fuel lines f)
  unfolding finish
  finish-IsReading zero f r h = absurd (omega (arith, h))
  finish-IsReading (suc fuel) f r h =
      rw (searching-IsReading m lines reaches place asked f r, finish)
        (elim (advance-cases m lines reaches place asked f r) [
          | inl done ↦ finish-ended fuel (advance reaches lines f).0 done
          | inr (more, later) ↦
              finish-IsReading fuel (advance reaches lines f).0 more
                (omega (arith, h, later, more.within))
        ])

  started : CodeFinder
  started = record {
    reading = some m;
    from = place;
    next_line = 0;
    matches = [];
    current = 0;
    placed = false;
    active = true;
    bounded = false;
  }

  started-IsReading : IsReading m lines reaches place asked started
  unfolding first_lines first_from started
  started-IsReading = record {
    reading = refl;
    active = refl;
    from = refl;
    within = omega arith;
    matches = refl;
    bounded = refl;
    placed = record { placed = refl; current = refl };
  }

-- A search for a text that is not empty ends, after at most as many steps as there are lines and one
-- more: its matches are then the first 9999 of those of all the lines, in the order of the document,
-- each with the glyphs before it in its line, and the one to read is the first at or behind the start
-- of the search, or the first of all if there is none.
pub finish-search-IsRead :
    (text : Bytes) (case_sensitive whole_word : Bool) (lines : List Bytes)
    (reaches : DocPos → DocPos → Bool) (place : DocPos) (f : CodeFinder)
    (asked : nothing (matcher text case_sensitive whole_word).needle ≡ false)
    → IsRead (matcher text case_sensitive whole_word) lines reaches place asked (
        finish reaches
          (suc (length lines))
          lines
          (search reaches lines text case_sensitive whole_word place f))
unfolding search started
finish-search-IsRead text case_sensitive whole_word lines reaches place f asked =
    let m = matcher text case_sensitive whole_word in
    elim (advance-cases m lines reaches place asked (started m lines reaches place asked)
      (started-IsReading m lines reaches place asked)) [
        | inl done ↦ finish-ended m lines reaches place asked (suc (length lines)) _ done
        | inr (more, later) ↦
            finish-IsReading m lines reaches place asked (suc (length lines)) _ more
              (omega (arith, more.within))
      ]
