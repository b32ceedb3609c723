-- ===== src/Execution/Workers/Closing.antt =====
-- The order of the tasks, and how the threads leave their loops.
use workpane.Prelude.{
  ℕ, zero, suc, ◌≡◌, inl, inr, true, List, [], ◌∷◌, ◌++◌, arith, refl, ap, ◌∙◌, sym, append_assoc,
  Bool-cases,
}
use workpane.Execution.Workers.{
  Worker, waiting, asleep, running, returned, Queue, take_task, advance, advance_at,
}
use workpane.Execution.Workers.Hands.{Left}

module _ {T : Type 0} where
  -- Tasks are started in the order in which they were accepted.
  abbrev pub IsOrdered : Queue T → Type 0
  IsOrdered q = q.started ++ q.tasks ≡ q.accepted

  take_task-IsOrdered :
      (tasks : List T) (q : Queue T)
      → q.tasks ≡ tasks
      → IsOrdered q
      → IsOrdered (take_task tasks q).1
  unfolding take_task
  take_task-IsOrdered [] q e h = elim (Bool-cases q.closed) [ inl c ↦ rw c h | inr c ↦ rw c h ]
  take_task-IsOrdered (task ∷ rest) q e h =
      append_assoc q.started (task ∷ []) rest ∙ ap (λ (l : List T). q.started ++ l) (sym e) ∙ h

  advance-IsOrdered :
      (thread : Worker T) (q : Queue T) → IsOrdered q → IsOrdered (advance thread q).1
  unfolding advance
  advance-IsOrdered waiting q h = take_task-IsOrdered q.tasks q refl h
  advance-IsOrdered (running task) q h = h
  advance-IsOrdered asleep q h = h
  advance-IsOrdered returned q h = h

  pub advance_at-IsOrdered :
      (i : ℕ) (threads : List (Worker T)) (q : Queue T)
      → IsOrdered q
      → IsOrdered (advance_at i threads q).1
  unfolding advance_at
  advance_at-IsOrdered i [] q h = h
  advance_at-IsOrdered zero (thread ∷ threads) q h = advance-IsOrdered thread q h
  advance_at-IsOrdered (suc i) (thread ∷ threads) q h = advance_at-IsOrdered i threads q h

  -- A thread leaves its loop only when the pool is closed and nothing waits, which then stays so.
  abbrev pub Drained : Queue T → Type 0
  Drained q = (q.closed ≡ true) × (q.tasks ≡ [])

  take_task-Drained : (q : Queue T) → Drained q → Drained (take_task q.tasks q).1
  unfolding take_task
  take_task-Drained q (c, e) = rw (e, take_task) (rw c (refl, refl))

  advance-Drained : (thread : Worker T) (q : Queue T) → Drained q → Drained (advance thread q).1
  unfolding advance
  advance-Drained waiting q d = take_task-Drained q d
  advance-Drained (running task) q d = d
  advance-Drained asleep q d = d
  advance-Drained returned q d = d

  pub advance_at-Drained :
      (i : ℕ) (threads : List (Worker T)) (q : Queue T)
      → Drained q
      → Drained (advance_at i threads q).1
  unfolding advance_at
  advance_at-Drained i [] q d = d
  advance_at-Drained zero (thread ∷ threads) q d = advance-Drained thread q d
  advance_at-Drained (suc i) (thread ∷ threads) q d = advance_at-Drained i threads q d

  take_task-Left :
      (tasks : List T) (q : Queue T) (threads : List (Worker T))
      → q.tasks ≡ tasks
      → (Left threads → Drained q)
      → Left ((take_task tasks q).0 ∷ threads)
      → Drained (take_task tasks q).1
  unfolding take_task
  take_task-Left [] q threads e h l = elim (Bool-cases q.closed) [
    | inl c ↦ rw c (refl, e)
    | inr c ↦ ground (arith, h (rw c at l))
  ]
  take_task-Left (task ∷ rest) q threads e h l = absurd (cc (sym e ∙ (h l).1))

  advance-Left :
      (thread : Worker T) (q : Queue T) (threads : List (Worker T))
      → (Left (thread ∷ threads) → Drained q)
      → Left ((advance thread q).0 ∷ threads)
      → Drained (advance thread q).1
  unfolding advance
  advance-Left waiting q threads h l = take_task-Left q.tasks q threads refl h l
  advance-Left (running task) q threads h l = h l
  advance-Left asleep q threads h l = h l
  advance-Left returned q threads h l = h l

  pub advance_at-Left :
      (i : ℕ) (threads : List (Worker T)) (q : Queue T)
      → (Left threads → Drained q)
      → Left (advance_at i threads q).0
      → Drained (advance_at i threads q).1
  unfolding advance_at
  advance_at-Left i [] q h l = absurd l
  advance_at-Left zero (thread ∷ threads) q h l = advance-Left thread q threads h l
  advance_at-Left (suc i) (waiting ∷ threads) q h l = advance_at-Left i threads q h l
  advance_at-Left (suc i) (asleep ∷ threads) q h l = advance_at-Left i threads q h l
  advance_at-Left (suc i) (running task ∷ threads) q h l = advance_at-Left i threads q h l
  advance_at-Left (suc i) (returned ∷ threads) q h l = advance_at-Drained i threads q (h tt)
