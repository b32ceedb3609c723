-- ===== src/Execution/Workers/Progress.antt =====
-- A pool that shuts down comes to its end: no thread sleeps, and every step of a thread that has not left its
-- loop brings the end nearer.
use workpane.Prelude.{
  ℕ, zero, suc, ◌+◌, ◌*◌, ◌<◌, ◌≤◌, ◌≡◌, true, List, [], ◌∷◌, arith, refl, length, some, get_elem?,
  inl, inr, ap, subst, sym, All, ◌⊎◌,
}
use workpane.Execution.Workers.{
  Worker, waiting, asleep, running, returned, close, closes, notifies_all, Queue, WorkerPool,
  take_task, advance, advance_at, Section, advances, step, run,
}
use workpane.Execution.Workers.Waking.{
  IsBusy, IsAwake, IsClosing, run-closed, notify_all-IsAwake, run-IsClosing,
}
use workpane.Execution.Workers.Hands.{AllLeft}

some_injective : {A : Type 0} {a b : A} → some a ≡ some b → a ≡ b
some_injective h = cc

module _ {T : Type 0} where
  -- How many steps a thread has at most before it must take another task.
  abbrev rank : Worker T → ℕ
  rank waiting = 1
  rank (running task) = 2
  rank asleep = 0
  rank returned = 0

  abbrev ranks : List (Worker T) → ℕ
  ranks [] = 0
  ranks (thread ∷ threads) = rank thread + ranks threads

  -- What bounds the steps that are left.
  abbrev pub steps_left : WorkerPool T → ℕ
  steps_left p = 2 * length p.queue.tasks + ranks p.threads

  take_task-rank :
      (tasks : List T) (q : Queue T)
      → q.tasks ≡ tasks
      → q.closed ≡ true
      → (2 * length (take_task tasks q).1.tasks + rank (take_task tasks q).0
          < 2 * length q.tasks + 1)
        × ((take_task tasks q).1.closed ≡ true)
  unfolding take_task
  take_task-rank [] q e c = ground arith
  take_task-rank (task ∷ rest) q e c = (omega (arith, ap length e), c)

  advance-rank :
      (thread : Worker T) (q : Queue T)
      → IsBusy thread
      → q.closed ≡ true
      → (2 * length (advance thread q).1.tasks + rank (advance thread q).0
          < 2 * length q.tasks + rank thread)
        × ((advance thread q).1.closed ≡ true)
  unfolding advance
  advance-rank waiting q n c = take_task-rank q.tasks q refl c
  advance-rank (running task) q n c = (omega arith, c)
  advance-rank asleep q n c = absurd n
  advance-rank returned q n c = absurd n

  advance_at-ranks :
      (i : ℕ) (threads : List (Worker T)) (thread : Worker T) (q : Queue T)
      → get_elem? threads i ≡ some thread
      → IsBusy thread
      → q.closed ≡ true
      → (2 * length (advance_at i threads q).1.tasks + ranks (advance_at i threads q).0
          < 2 * length q.tasks + ranks threads)
        × ((advance_at i threads q).1.closed ≡ true)
  unfolding advance_at
  advance_at-ranks i [] thread q e n c = cc
  advance_at-ranks zero (first ∷ threads) thread q e n c =
      let a = advance-rank first q (subst IsBusy (sym (some_injective e)) n) c in
      (omega (arith, a.0), a.1)
  advance_at-ranks (suc i) (first ∷ threads) thread q e n c =
      let a = advance_at-ranks i threads thread q e n c in (omega (arith, a.0), a.1)

  -- Every step of a schedule is one of a thread that has not left its loop.
  abbrev pub Moves : WorkerPool T → List ℕ → Type 0
  Moves p [] = Unit
  Moves p (i ∷ is) =
      ((thread : Worker T) × (get_elem? p.threads i ≡ some thread) × (IsBusy thread))
      × Moves (step p (advances i)) is

  abbrev pub schedule : List ℕ → List (Section T)
  schedule [] = []
  schedule (i ∷ is) = advances i ∷ schedule is

  run-steps_left :
      (p : WorkerPool T) (is : List ℕ)
      → p.queue.closed ≡ true
      → Moves p is
      → length is + steps_left (run p (schedule is)) ≤ steps_left p
  unfolding run step
  run-steps_left p [] c m = omega arith
  run-steps_left p (i ∷ is) c ((thread, e, n), m) =
      let a = advance_at-ranks i p.threads thread p.queue e n c in
      omega (arith, a.0, run-steps_left (step p (advances i)) is a.1 m)

  AllLeft-or-IsBusy :
      (threads : List (Worker T))
      → All IsAwake threads
      → AllLeft threads
        ⊎ ((i : ℕ) × (thread : Worker T) × (get_elem? threads i ≡ some thread) × IsBusy thread)
  AllLeft-or-IsBusy [] w = inl tt
  AllLeft-or-IsBusy (waiting ∷ threads) w = inr (0, waiting, refl, tt)
  AllLeft-or-IsBusy (asleep ∷ threads) w = absurd w.0
  AllLeft-or-IsBusy (running task ∷ threads) w = inr (0, running task, refl, tt)
  AllLeft-or-IsBusy (returned ∷ threads) w = elim (AllLeft-or-IsBusy threads w.1) [
    | inl a ↦ inl a
    | inr (i, thread, e, n) ↦ inr (suc i, thread, e, n)
  ]

  -- A pool whose `shutdown` has closed it and notified all threads, whatever happened meanwhile and since.
  abbrev pub shut_down : WorkerPool T → List (Section T) → List (Section T) → WorkerPool T
  shut_down p meanwhile since = run (step (run (step p closes) meanwhile) notifies_all) since

  shut_down-IsClosing :
      (p : WorkerPool T) (meanwhile since : List (Section T))
      → IsClosing (shut_down p meanwhile since)
  unfolding step close
  shut_down-IsClosing p meanwhile since =
      let q = run (step p closes) meanwhile in
      run-IsClosing (step q notifies_all) since
        (run-closed (step p closes) meanwhile refl, notify_all-IsAwake q.threads)

  -- Once `shutdown` has closed the pool and notified its threads, whatever other sections come between and
  -- behind, the threads that neither sleep nor have left can make no more steps together than twice the
  -- waiting tasks, two for each running thread and one for each waiting one; and as long as some thread has
  -- not left, some thread can make such a step.
  pub shutdown_ends :
      (p : WorkerPool T) (meanwhile since : List (Section T)) (is : List ℕ)
      → Moves (shut_down p meanwhile since) is
      → (let q = run (shut_down p meanwhile since) (schedule is) in
          (length is + steps_left q ≤ steps_left (shut_down p meanwhile since))
          × (AllLeft q.threads
              ⊎ ((i : ℕ) × (thread : Worker T) × (get_elem? q.threads i ≡ some thread)
                  × IsBusy thread)))
  shutdown_ends p meanwhile since is m =
      let s = shut_down p meanwhile since in
      let k = shut_down-IsClosing p meanwhile since in
      (
        run-steps_left s is k.0 m,
        AllLeft-or-IsBusy (run s (schedule is)).threads (run-IsClosing s (schedule is) k).1,
      )
