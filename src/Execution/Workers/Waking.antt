-- ===== src/Execution/Workers/Waking.antt =====
-- A pool that is closed and has notified all threads stays closed, and no thread of it sleeps again.
use workpane.Prelude.{ℕ, zero, suc, ◌≡◌, true, List, [], ◌∷◌, refl, inl, inr, ◌∙◌, All, Bool-cases}
use workpane.Execution.Workers.{
  Worker, waiting, asleep, running, returned, woken, notify_one, notify_all, post, close, posts,
  closes, notifies_one, notifies_all, Queue, WorkerPool, take_task, advance, advance_at, Section,
  advances, step, run,
}

module _ {T : Type 0} where
  -- A thread that waits for nothing but the lock, or runs a task.
  abbrev pub IsBusy : Worker T → Type 0
  IsBusy waiting = Unit
  IsBusy asleep = ⊥
  IsBusy (running task) = Unit
  IsBusy returned = ⊥

  abbrev pub IsAwake : Worker T → Type 0
  IsAwake waiting = Unit
  IsAwake asleep = ⊥
  IsAwake (running task) = Unit
  IsAwake returned = Unit

  -- Closed, with no thread asleep.
  abbrev pub IsClosing : WorkerPool T → Type 0
  IsClosing p = (p.queue.closed ≡ true) × All IsAwake p.threads

  take_task-IsAwake :
      (tasks : List T) (q : Queue T) → q.closed ≡ true → IsAwake (take_task tasks q).0
  unfolding take_task
  take_task-IsAwake [] q c = rw c tt
  take_task-IsAwake (task ∷ rest) q c = tt

  advance-IsAwake :
      (thread : Worker T) (q : Queue T)
      → q.closed ≡ true
      → IsAwake thread
      → IsAwake (advance thread q).0
  unfolding advance
  advance-IsAwake waiting q c w = take_task-IsAwake q.tasks q c
  advance-IsAwake asleep q c w = absurd w
  advance-IsAwake (running task) q c w = tt
  advance-IsAwake returned q c w = tt

  advance_at-IsAwake :
      (i : ℕ) (threads : List (Worker T)) (q : Queue T)
      → q.closed ≡ true
      → All IsAwake threads
      → All IsAwake (advance_at i threads q).0
  unfolding advance_at
  advance_at-IsAwake i [] q c w = tt
  advance_at-IsAwake zero (thread ∷ threads) q c w = (advance-IsAwake thread q c w.0, w.1)
  advance_at-IsAwake (suc i) (thread ∷ threads) q c w = (w.0, advance_at-IsAwake i threads q c w.1)

  take_task-closed : (tasks : List T) (q : Queue T) → (take_task tasks q).1.closed ≡ q.closed
  unfolding take_task
  take_task-closed [] q = elim (Bool-cases q.closed) [ inl c ↦ rw c refl | inr c ↦ rw c refl ]
  take_task-closed (task ∷ rest) q = refl

  advance-closed : (thread : Worker T) (q : Queue T) → (advance thread q).1.closed ≡ q.closed
  unfolding advance
  advance-closed waiting q = take_task-closed q.tasks q
  advance-closed asleep q = refl
  advance-closed (running task) q = refl
  advance-closed returned q = refl

  advance_at-closed :
      (i : ℕ) (threads : List (Worker T)) (q : Queue T)
      → (advance_at i threads q).1.closed ≡ q.closed
  unfolding advance_at
  advance_at-closed i [] q = refl
  advance_at-closed zero (thread ∷ threads) q = advance-closed thread q
  advance_at-closed (suc i) (thread ∷ threads) q = advance_at-closed i threads q

  step-closed :
      (p : WorkerPool T) (x : Section T) → p.queue.closed ≡ true → (step p x).queue.closed ≡ true
  unfolding step post close
  step-closed p (posts task) c = rw c refl
  step-closed p closes c = refl
  step-closed p (notifies_one i) c = c
  step-closed p notifies_all c = c
  step-closed p (advances i) c = advance_at-closed i p.threads p.queue ∙ c

  pub run-closed :
      (p : WorkerPool T) (xs : List (Section T))
      → p.queue.closed ≡ true
      → (run p xs).queue.closed ≡ true
  unfolding run
  run-closed p [] c = c
  run-closed p (x ∷ xs) c = run-closed (step p x) xs (step-closed p x c)

  woken-IsAwake : (thread : Worker T) → IsAwake (woken thread)
  woken-IsAwake waiting = tt
  woken-IsAwake asleep = tt
  woken-IsAwake (running task) = tt
  woken-IsAwake returned = tt

  notify_one-IsAwake :
      (i : ℕ) (threads : List (Worker T)) → All IsAwake threads → All IsAwake (notify_one i threads)
  unfolding notify_one
  notify_one-IsAwake i [] w = tt
  notify_one-IsAwake zero (thread ∷ threads) w = (woken-IsAwake thread, w.1)
  notify_one-IsAwake (suc i) (thread ∷ threads) w = (w.0, notify_one-IsAwake i threads w.1)

  pub notify_all-IsAwake : (threads : List (Worker T)) → All IsAwake (notify_all threads)
  unfolding notify_all
  notify_all-IsAwake [] = tt
  notify_all-IsAwake (thread ∷ threads) = (woken-IsAwake thread, notify_all-IsAwake threads)

  step-IsAwake : (p : WorkerPool T) (x : Section T) → IsClosing p → All IsAwake (step p x).threads
  unfolding step
  step-IsAwake p (posts task) (c, w) = w
  step-IsAwake p closes (c, w) = w
  step-IsAwake p (notifies_one i) (c, w) = notify_one-IsAwake i p.threads w
  step-IsAwake p notifies_all (c, w) = notify_all-IsAwake p.threads
  step-IsAwake p (advances i) (c, w) = advance_at-IsAwake i p.threads p.queue c w

  step-IsClosing : (p : WorkerPool T) (x : Section T) → IsClosing p → IsClosing (step p x)
  step-IsClosing p x h = (step-closed p x h.0, step-IsAwake p x h)

  pub run-IsClosing :
      (p : WorkerPool T) (xs : List (Section T)) → IsClosing p → IsClosing (run p xs)
  unfolding run
  run-IsClosing p [] h = h
  run-IsClosing p (x ∷ xs) h = run-IsClosing (step p x) xs (step-IsClosing p x h)
