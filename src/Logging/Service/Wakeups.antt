-- ===== src/Logging/Service/Wakeups.antt =====
-- The consumer is told once of each batch that waits.
use workpane.Prelude.{
  ℕ, ◌+◌, ◌≤◌, ◌≡◌, ◌≢◌, ◌⊎◌, inl, inr, Bool-cases, ◌==◌, true, false, List, [], ◌∷◌, arith, All,
  refl,
}
use workpane.Logging.Service.{
  LogService, Section, writes, sets, starts, stops, clears, takes, notifies, step, run, take,
}

-- Sections that neither take entries nor clear the delivery.
abbrev pub Goes : {E : Type 0} → Section E → Type 0
Goes takes = ⊥
Goes stops = ⊥
Goes clears = ⊥
Goes x = Unit

-- Of what has waited since the last `take`, when `base` notifications had been given or were due.
pub record IsTold {E : Type 0} (base : ℕ) (s : LogService E) : Type 0 where
  pub delivering : s.delivering ≡ true
  pub consumer : s.consumer ≡ true
  pub batch :
      ((s.pending ≡ []) × (s.notified ≡ false) × (s.calls + s.due ≡ base))
      ⊎ ((s.pending ≢ []) × (s.notified ≡ true) × (s.calls + s.due ≡ base + 1))

once_more :
    (n calls due : ℕ)
    → n ≤ calls
    → calls + due ≡ n + 1
    → ((calls ≡ n + 1) × (due ≡ 0)) ⊎ ((calls ≡ n) × (due ≡ 1))
once_more n calls due m e = elim (Bool-cases (calls == n)) [
  | inl q ↦ inr (ground (arith, q), ground (arith, q))
  | inr q ↦ inl (ground (arith, q), ground (arith, q))
]

module _ {E : Type 0} where
  -- The consumer is never called less often.
  step-calls : (s : LogService E) (x : Section E) → s.calls ≤ (step s x).calls
  unfolding step
  step-calls s (writes entry) = ground arith
  step-calls s sets = ground arith
  step-calls s starts = ground arith
  step-calls s notifies = ground arith
  step-calls s takes = ground arith
  step-calls s stops = ground arith
  step-calls s clears = ground arith

  run-calls : (s : LogService E) (xs : List (Section E)) → s.calls ≤ (run s xs).calls
  unfolding run
  run-calls s [] = omega arith
  run-calls s (x ∷ xs) = omega (arith, step-calls s x, run-calls (step s x) xs)

  step-IsTold :
      (base : ℕ) (s : LogService E) (x : Section E)
      → Goes x
      → IsTold base s
      → IsTold base (step s x)
  unfolding step
  step-IsTold base s (writes entry) g t = ground (arith, t.batch)
  step-IsTold base s sets g t = ground (arith, t.batch)
  step-IsTold base s starts g t = ground (arith, t.batch)
  step-IsTold base s notifies g t = ground (arith, t.batch)
  step-IsTold base s takes g t = absurd g
  step-IsTold base s stops g t = absurd g
  step-IsTold base s clears g t = absurd g

  run-IsTold :
      (base : ℕ) (s : LogService E) (xs : List (Section E))
      → All Goes xs
      → IsTold base s
      → IsTold base (run s xs)
  unfolding run
  run-IsTold base s [] g t = t
  run-IsTold base s (x ∷ xs) g t = run-IsTold base (step s x) xs g.1 (step-IsTold base s x g.0 t)

  take-IsTold :
      (s : LogService E)
      → s.delivering ≡ true
      → s.consumer ≡ true
      → IsTold (s.calls + s.due) (take s).0
  unfolding take
  take-IsTold s d c = record { delivering = d; consumer = c; batch = inl (refl, refl, refl) }

  -- From one `take` of a consumer that is set and served, while no writer is about to call it, through any
  -- interleaving of writes, notifications and repeated deliveries up to the next: if nothing waits then the
  -- consumer has not been called and no writer is about to; if entries wait then either it has been called
  -- exactly once and no writer is about to, or it has not and exactly one writer is about to.
  pub take_notifies_once :
      (s : LogService E) (xs : List (Section E))
      → s.delivering ≡ true
      → s.consumer ≡ true
      → s.due ≡ 0
      → All Goes xs
      → (let t = run (take s).0 xs in
          ((t.pending ≡ []) × (t.calls ≡ s.calls) × (t.due ≡ 0))
          ⊎ ((t.pending ≢ [])
              × (((t.calls ≡ s.calls + 1) × (t.due ≡ 0)) ⊎ ((t.calls ≡ s.calls) × (t.due ≡ 1)))))
  unfolding take
  take_notifies_once s xs d c z g =
      let m = run-calls (take s).0 xs in
      elim (run-IsTold (s.calls + s.due) (take s).0 xs g (take-IsTold s d c)).batch [
        | inl (p, n, e) ↦ inl (p, omega (arith, m, e, z), omega (arith, m, e, z))
        | inr (p, n, e) ↦ inr (p, once_more s.calls _ _ m (omega (arith, e, z)))
      ]
