-- ===== src/Process/ProcessText/Streaming.antt =====
-- What is assembled does not depend on how the bytes were cut into reads.
use workpane.Prelude.{
  ℕ, zero, suc, ◌≤◌, ◌≡◌, ◌≢◌, ◌⊎◌, inl, inr, refl, sym, ◌∙◌, ap, ap₂, List, [], ◌∷◌, ◌++◌, length,
  length-append, take, drop, arith, append_assoc, length-drop,
}
use workpane.Process.ProcessText.{replacement, Step, whole, wait, replaced, next, prepend, assemble}
use workpane.Process.ProcessText.Steps.{
  take-append_le, drop-append_le, used, next-bounds, next-append,
}

-- What a round emits when it does not wait.
abbrev emitted : Step → List ℕ → List ℕ
emitted (whole n) bytes = take n bytes
emitted wait bytes = []
emitted (replaced n) bytes = replacement

whole≢wait : (n : ℕ) → whole n ≢ wait
whole≢wait n h = cc

replaced≢wait : (n : ℕ) → replaced n ≢ wait
replaced≢wait n h = cc

pub wait-cases : (s : Step) → (s ≡ wait) ⊎ (s ≢ wait)
wait-cases (whole n) = inr (whole≢wait n)
wait-cases wait = inl refl
wait-cases (replaced n) = inr (replaced≢wait n)

pub assemble_waits :
    (fuel lead : ℕ) (bytes : List ℕ)
    → next lead bytes ≡ wait
    → assemble (suc fuel) (lead ∷ bytes) ≡ ([], lead ∷ bytes)
unfolding assemble
assemble_waits fuel lead bytes e = rw (e, assemble) refl

abbrev by_step : ℕ → List ℕ → Step → List ℕ × List ℕ
by_step fuel bytes (whole n) = prepend (take n bytes) (assemble fuel (drop n bytes))
by_step fuel bytes wait = ([], bytes)
by_step fuel bytes (replaced n) = prepend replacement (assemble fuel (drop n bytes))

by_step_goes :
    (fuel : ℕ) (bytes : List ℕ) (s : Step)
    → s ≢ wait
    → by_step fuel bytes s ≡ prepend (emitted s bytes) (assemble fuel (drop (used s) bytes))
by_step_goes fuel bytes (whole n) w = refl
by_step_goes fuel bytes wait w = absurd (w refl)
by_step_goes fuel bytes (replaced n) w = refl

pub assemble_goes :
    (fuel lead : ℕ) (bytes : List ℕ) (s : Step)
    → next lead bytes ≡ s
    → s ≢ wait
    → assemble (suc fuel) (lead ∷ bytes)
      ≡ prepend (emitted s (lead ∷ bytes)) (assemble fuel (drop (used s) (lead ∷ bytes)))
unfolding assemble
assemble_goes fuel lead bytes s e w =
    ap (λ (x : Step). by_step fuel (lead ∷ bytes) x) e ∙ by_step_goes fuel (lead ∷ bytes) s w

pub left_shorter :
    (lead : ℕ) (bytes : List ℕ) (n fuel : ℕ)
    → 1 ≤ n
    → length (lead ∷ bytes) ≤ suc fuel
    → length (drop n (lead ∷ bytes)) ≤ fuel
left_shorter lead bytes n fuel h g = omega (arith, length-drop {0} n (lead ∷ bytes))

-- Fuel for each byte is enough.
pub assemble-fuel :
    (fuel more : ℕ) (bytes : List ℕ)
    → length bytes ≤ fuel
    → length bytes ≤ more
    → assemble fuel bytes ≡ assemble more bytes
unfolding assemble
assemble-fuel fuel more [] h g = refl
assemble-fuel zero more (lead ∷ bytes) h g = absurd (omega (arith, h))
assemble-fuel (suc fuel) zero (lead ∷ bytes) h g = absurd (omega (arith, g))
assemble-fuel (suc fuel) (suc more) (lead ∷ bytes) h g = elim (wait-cases (next lead bytes)) [
  | inl e ↦ assemble_waits fuel lead bytes e ∙ sym (assemble_waits more lead bytes e)
  | inr w ↦
      let s = next lead bytes in
      let b = (next-bounds lead bytes w).0 in
      assemble_goes fuel lead bytes s refl w
      ∙ ap (λ (p : List ℕ × List ℕ). prepend (emitted s (lead ∷ bytes)) p)
          (assemble-fuel fuel more (drop (used s) (lead ∷ bytes))
            (left_shorter lead bytes (used s) fuel b h) (left_shorter lead bytes (used s) more b g))
      ∙ sym (assemble_goes more lead bytes s refl w)
]

pub assemble-left : (fuel : ℕ) (bytes : List ℕ) → length (assemble fuel bytes).1 ≤ length bytes
unfolding assemble
assemble-left fuel [] = omega arith
assemble-left zero (lead ∷ bytes) = omega arith
assemble-left (suc fuel) (lead ∷ bytes) = elim (wait-cases (next lead bytes)) [
  | inl e ↦ rw (assemble_waits fuel lead bytes e) (omega arith)
  | inr w ↦
      let s = next lead bytes in
      rw (assemble_goes fuel lead bytes s refl w) (
        omega (
          arith,
          assemble-left fuel (drop (used s) (lead ∷ bytes)),
          length-drop {0} (used s) (lead ∷ bytes),
        ))
]

-- The rest of the work, once more bytes have arrived.
abbrev pub resume : ℕ → List ℕ → List ℕ × List ℕ → List ℕ × List ℕ
resume fuel more (text, left) = prepend text (assemble fuel (left ++ more))

emitted-append :
    (s : Step) (bytes more : List ℕ)
    → used s ≤ length bytes
    → emitted s (bytes ++ more) ≡ emitted s bytes
emitted-append (whole n) bytes more h = take-append_le n bytes more h
emitted-append wait bytes more h = refl
emitted-append (replaced n) bytes more h = refl

prepend_assoc :
    (xs ys : List ℕ) (p : List ℕ × List ℕ) → prepend xs (prepend ys p) ≡ prepend (xs ++ ys) p
prepend_assoc xs ys (zs, left) = ap (λ (l : List ℕ). (l, left)) (sym (append_assoc xs ys zs))

left_fits :
    (fuel : ℕ) (all : List ℕ) (n : ℕ) (more : List ℕ)
    → length (drop n all ++ more) ≤ fuel
    → length ((assemble fuel (drop n all)).1 ++ more) ≤ fuel
left_fits fuel all n more h = omega (
  arith,
  assemble-left fuel (drop n all),
  length-append {0} (assemble fuel (drop n all)).1 more,
  length-append {0} (drop n all) more,
)

-- Waiting bytes and later ones give what they give together.
pub assemble-append :
    (fuel : ℕ) (bytes more : List ℕ)
    → length (bytes ++ more) ≤ fuel
    → assemble fuel (bytes ++ more) ≡ resume fuel more (assemble fuel bytes)
unfolding assemble
assemble-append fuel [] more h = refl
assemble-append zero (lead ∷ bytes) more h = absurd (omega (arith, h))
assemble-append (suc fuel) (lead ∷ bytes) more h = elim (wait-cases (next lead bytes)) [
  | inl e ↦ rw (assemble_waits fuel lead bytes e) refl
  | inr w ↦
      let s = next lead bytes in
      let all = lead ∷ bytes in
      let (b, c) = next-bounds lead bytes w in
      let fits : length (drop (used s) all ++ more) ≤ fuel = omega (
        arith,
        h,
        length-append {0} (drop (used s) all) more,
        length-append {0} all more,
        length-drop {0} (used s) all,
      ) in
      assemble_goes fuel lead (bytes ++ more) s (next-append lead bytes more w) w
      ∙ ap₂ (λ (x y : List ℕ). prepend x (assemble fuel y)) (emitted-append s all more c)
          (drop-append_le (used s) all more c)
      ∙ ap (λ (p : List ℕ × List ℕ). prepend (emitted s all) p)
          (assemble-append fuel (drop (used s) all) more fits)
      ∙ prepend_assoc (emitted s all) (assemble fuel (drop (used s) all)).0
          (assemble fuel ((assemble fuel (drop (used s) all)).1 ++ more))
      ∙ ap
          (λ (p : List ℕ × List ℕ).
            prepend (emitted s all ++ (assemble fuel (drop (used s) all)).0) p)
          (assemble-fuel fuel (suc fuel) ((assemble fuel (drop (used s) all)).1 ++ more)
            (left_fits fuel all (used s) more fits)
            (omega (arith, left_fits fuel all (used s) more fits)))
      ∙ ap (λ (p : List ℕ × List ℕ). resume (suc fuel) more p)
          (sym (assemble_goes fuel lead bytes s refl w))
]
