-- ===== src/Search/Matcher/Occurrences.antt =====
-- What is found is every occurrence, in order, up to the limit.
use workpane.Prelude.{
  ℕ, zero, suc, ◌+◌, ◌-◌, ◌≤◌, ◌<◌, ◌≡◌, false, ◌&&◌, List, [], ◌∷◌, ◌++◌, Option, none, some,
  length, length-append, take, ltb, if◌then◌else◌, Bool-cases, inl, inr, refl, sym, ◌∙◌, ap, ap₂,
  append-nil, append_assoc, arith,
}
use workpane.Prelude.Bytes.{Bytes, starts_with}
use workpane.Search.Matcher.{
  Match, TextMatcher, folded, nothing, next_occurrence, accepted, match_at, find_loop, find_matches,
}

module _ (m : TextMatcher) (haystack : Bytes) where
  -- The matches from a place on: where the needle stands, at the edges of a word if whole words are asked.
  unfoldable pub matches_from : ℕ → Bytes → List Match
  matches_from index [] = []
  matches_from index (x ∷ rest) =
      let others = matches_from (index + 1) rest in
      if starts_with m.needle (x ∷ rest) && accepted m haystack index
      then match_at m index ∷ others
      else others

  -- The matches at an occurrence and behind it.
  abbrev matches_at : Option (ℕ × Bytes) → List Match
  matches_at none = []
  matches_at (some (found, rest)) =
      if accepted m haystack found
      then match_at m found ∷ matches_from (found + 1) rest
      else matches_from (found + 1) rest

  abbrev room_at : Option (ℕ × Bytes) → ℕ
  room_at none = 0
  room_at (some (found, rest)) = suc (length rest)

  next_occurrence-matches_from :
      (index : ℕ) (rest : Bytes)
      → (matches_at (next_occurrence m.needle index rest) ≡ matches_from index rest)
        × (room_at (next_occurrence m.needle index rest) ≤ length rest)
  unfolding next_occurrence matches_from
  next_occurrence-matches_from index [] = (refl, omega arith)
  next_occurrence-matches_from index (x ∷ rest) =
      elim (Bool-cases (starts_with m.needle (x ∷ rest))) [
        | inl e ↦ rw e (refl, omega arith)
        | inr e ↦
            let (p, q) = next_occurrence-matches_from (index + 1) rest in rw e (p, omega (arith, q))
      ]

  take-zero : (n : ℕ) (xs : List Match) → n ≡ 0 → take n xs ≡ []
  take-zero zero xs h = refl
  take-zero (suc n) xs h = absurd (omega arith)

  take-one : (n : ℕ) (x : Match) (xs : List Match) → 0 < n → take n (x ∷ xs) ≡ x ∷ take (n - 1) xs
  take-one zero x xs h = absurd (omega arith)
  take-one (suc n) x xs h = let p : suc n - 1 ≡ n = omega arith in rw p refl

  take-nil : (n : ℕ) → take {A = Match} n [] ≡ []
  take-nil zero = refl
  take-nil (suc n) = refl

  -- One match is found and the rest has room for one less.
  take-pushed :
      (limit : ℕ) (matches : List Match) (x : Match) (xs ys : List Match)
      → length matches < limit
      → xs ≡ ys
      → x ∷ take (limit - length (matches ++ x ∷ [])) xs ≡ take (limit - length matches) (x ∷ ys)
  take-pushed limit matches x xs ys h e =
      let p : limit - length (matches ++ x ∷ []) ≡ limit - length matches - 1 =
        omega (arith, length-append {0} matches (x ∷ [])) in
      ap₂ (λ (n : ℕ) (l : List Match). x ∷ take n l) p e
      ∙ sym (take-one (limit - length matches) x ys (omega arith))

  find_loop-matches_at :
      (fuel limit : ℕ) (found : Option (ℕ × Bytes)) (matches : List Match)
      → room_at found ≤ fuel
      → find_loop fuel m haystack limit found matches
        ≡ matches ++ take (limit - length matches) (matches_at found)
  unfolding find_loop
  find_loop-matches_at fuel limit none matches h =
      sym (append-nil matches)
      ∙ ap (λ (l : List Match). matches ++ l) (sym (take-nil (limit - length matches)))
  find_loop-matches_at zero limit (some (found, rest)) matches h = absurd (omega (arith, h))
  find_loop-matches_at (suc fuel) limit (some (found, rest)) matches h =
      let (p, q) = next_occurrence-matches_from (found + 1) rest in
      elim (Bool-cases (ltb (length matches) limit)) [
        | inr e ↦
            rw (e, find_loop)
              (sym (append-nil matches)
                ∙ ap (λ (l : List Match). matches ++ l)
                    (sym (
                      take-zero (limit - length matches) (matches_at (some (found, rest)))
                        (ground arith))))
        | inl e ↦ elim (Bool-cases (accepted m haystack found)) [
          | inl f ↦
              rw (e, f, find_loop)
                (find_loop-matches_at fuel limit (next_occurrence m.needle (found + 1) rest)
                    (matches ++ match_at m found ∷ []) (omega (arith, h, q))
                  ∙ append_assoc matches (match_at m found ∷ []) _
                  ∙ ap (λ (l : List Match). matches ++ l)
                      (take-pushed limit matches (match_at m found)
                        (matches_at (next_occurrence m.needle (found + 1) rest))
                        (matches_from (found + 1) rest) (ground arith) p))
          | inr f ↦
              rw (e, f, find_loop)
                (find_loop-matches_at fuel limit (next_occurrence m.needle (found + 1) rest) matches
                    (omega (arith, h, q))
                  ∙ ap (λ (l : List Match). matches ++ take (limit - length matches) l) p)
        ]
      ]

-- What a search of a line finds are its matches in order, each at an occurrence of the text and, if
-- whole words are asked, between edges of words: the first of them, up to the limit.
pub find_matches-matches_from :
    (m : TextMatcher) (line : Bytes) (limit : ℕ)
    → nothing m.needle ≡ false
    → find_matches m line limit
      ≡ take limit (matches_from m (folded line m.case_sensitive) 0 (folded line m.case_sensitive))
unfolding find_matches
find_matches-matches_from m line limit h =
    let haystack = folded line m.case_sensitive in
    let (p, q) = next_occurrence-matches_from m haystack 0 haystack in
    let r : limit - 0 ≡ limit = omega arith in
    rw h (
      find_loop-matches_at m haystack (length haystack) limit (next_occurrence m.needle 0 haystack)
        [] q
      ∙ ap₂ (λ (n : ℕ) (l : List Match). take n l) r p)
