-- ===== src/Search/CodeFinder/Steps.antt =====
-- Steps from match to match, wrapping past the first and the last one.
use native.Mathlib.Nat.{add-mod_left, mod-mod, mod-eq_of_lt, mod_self}
use workpane.Prelude.{
  ℕ, zero, suc, ◌+◌, ◌-◌, ◌<◌, ◌%◌, ◌≡◌, refl, ◌∙◌, ap, true, false, length, ltb, ◌==◌, Bool-cases,
  inl, inr, if◌then◌else◌, arith,
}
use workpane.Prelude.Int.{ℤ, pos, negsuc}
use workpane.Search.CodeFinder.{CodeFinder, rem, plus, to_index, step}

-- The match that a step leads to, from a match of some.
abbrev reached : ℕ → ℕ → ℤ → ℕ
reached size current direction = to_index (rem (plus size (rem (plus current direction) size)) size)

forward : (size current : ℕ) → reached size current (pos 1) ≡ (current + 1) % size
forward size current = add-mod_left size ((current + 1) % size) ∙ mod-mod (current + 1) size

-- The next match, or the first one behind the last.
forward-cases :
    (size current : ℕ)
    → current < size
    → reached size current (pos 1) ≡ (if ltb (current + 1) size then current + 1 else 0)
forward-cases size current h = elim (Bool-cases (ltb (current + 1) size)) [
  | inl e ↦ rw e (forward size current ∙ mod-eq_of_lt (ground arith))
  | inr e ↦
      let p : current + 1 ≡ size = ground arith in
      rw e (forward size current ∙ ap (λ (n : ℕ). n % size) p ∙ mod_self size)
]

back_inside :
    (size current : ℕ) → suc current < size → reached size (suc current) (negsuc 0) ≡ current
back_inside size current h =
    let t : ltb 0 (suc current) ≡ true = ground arith in
    let q : suc current - 1 ≡ current = omega arith in
    rw (t, q)
      (add-mod_left size (current % size) ∙ mod-mod current size ∙ mod-eq_of_lt (omega (arith, h)))

back_around : (size : ℕ) → 0 < size → reached size 0 (negsuc 0) ≡ size - 1
back_around zero h = absurd (omega (arith, h))
back_around (suc zero) h = refl
back_around (suc (suc n)) h =
    let p : 1 % suc (suc n) ≡ 1 = mod-eq_of_lt (omega arith) in
    let t : ltb 0 (suc (suc n)) ≡ true = ground arith in rw (p, t) (mod-eq_of_lt (omega arith))

-- A step to the next match and one back leads to where it began.
there_and_back :
    (size current : ℕ)
    → current < size
    → reached size (reached size current (pos 1)) (negsuc 0) ≡ current
there_and_back size current h = elim (Bool-cases (ltb (current + 1) size)) [
  | inl e ↦
      let p : (if ltb (current + 1) size then current + 1 else 0) ≡ suc current =
        rw e (omega arith) in
      ap (λ (n : ℕ). reached size n (negsuc 0)) (forward-cases size current h ∙ p)
      ∙ back_inside size current (ground arith)
  | inr e ↦
      let p : (if ltb (current + 1) size then current + 1 else 0) ≡ 0 = rw e refl in
      let q : size - 1 ≡ current = ground arith in
      ap (λ (n : ℕ). reached size n (negsuc 0)) (forward-cases size current h ∙ p)
      ∙ back_around size (omega (arith, h))
      ∙ q
]

back_and_there :
    (size current : ℕ)
    → current < size
    → reached size (reached size current (negsuc 0)) (pos 1) ≡ current
back_and_there size zero h =
    let p : size - 1 + 1 ≡ size = omega (arith, h) in
    ap (λ (n : ℕ). reached size n (pos 1)) (back_around size h)
    ∙ forward size (size - 1)
    ∙ ap (λ (n : ℕ). n % size) p
    ∙ mod_self size
back_and_there size (suc current) h =
    let p : current + 1 ≡ suc current = omega arith in
    ap (λ (n : ℕ). reached size n (pos 1)) (back_inside size current h)
    ∙ forward size current
    ∙ ap (λ (n : ℕ). n % size) p
    ∙ mod-eq_of_lt h

step-reached :
    (direction : ℤ) (f : CodeFinder)
    → 0 < length f.matches
    → step direction f ≡ record f { current = reached (length f.matches) f.current direction }
unfolding step
step-reached direction f h =
    let e : (length f.matches == 0) ≡ false = ground (arith, h) in rw e refl

-- Where the match being read is one of those found, a step to the next match and one back, in either
-- order, leave the finder as it was.
pub step-step :
    (f : CodeFinder)
    → f.current < length f.matches
    → (step (negsuc 0) (step (pos 1) f) ≡ f) × (step (pos 1) (step (negsuc 0) f) ≡ f)
step-step f h =
    let some_match : 0 < length f.matches = omega (arith, h) in
    (
      ap (step (negsuc 0)) (step-reached (pos 1) f some_match)
          ∙ step-reached (negsuc 0)
              (record f { current = reached (length f.matches) f.current (pos 1) }) some_match
          ∙ ap (λ (n : ℕ). record f { current = n })
              (there_and_back (length f.matches) f.current h),
      ap (step (pos 1)) (step-reached (negsuc 0) f some_match)
          ∙ step-reached (pos 1)
              (record f { current = reached (length f.matches) f.current (negsuc 0) }) some_match
          ∙ ap (λ (n : ℕ). record f { current = n })
              (back_and_there (length f.matches) f.current h),
    )
