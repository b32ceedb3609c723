-- ===== src/Execution/Workers/Examples.antt =====
-- Tests of the pool and its theorems at concrete schedules.
use mathlib.Core.List.{Perm}
use workpane.Prelude.{ℕ, ◌+◌, ◌≤◌, ◌≡◌, ◌⊎◌, refl, List, [], ◌∷◌, false, some, arith, get_elem?}
use workpane.Execution.Workers.{
  Worker, waiting, asleep, running, returned, notify_one, notify_all, notifies_one, WorkerPool,
  Section, posts, closes, advances, step, run, initial, post, close, advance, advance_at,
}
use workpane.Execution.Workers.Hands.{AllLeft}
use workpane.Execution.Workers.Delivery.{IsSound, run-initial-IsSound, joined_lem}
use workpane.Execution.Workers.Progress.{steps_left, schedule, shut_down, shutdown_ends}
use workpane.Execution.Workers.Waking.{IsBusy}

-- Two threads, three tasks and one that comes too late.
abbrev history : List (Section ℕ)
history =
    posts 1
    ∷ posts 2
    ∷ posts 3
    ∷ advances 1
    ∷ advances 0
    ∷ closes
    ∷ posts 4
    ∷ advances 0
    ∷ advances 0
    ∷ advances 1
    ∷ advances 0
    ∷ advances 1
    ∷ advances 0
    ∷ []

ended : (run (initial 2) history).threads ≡ returned ∷ returned ∷ []
unfolding run step initial post close advance_at advance
ended = refl

accepted : (run (initial 2) history).queue.accepted ≡ 1 ∷ 2 ∷ 3 ∷ []
unfolding run step initial post close advance_at advance
accepted = refl

run-initial-IsSound_example : IsSound (run (initial 2) history)
run-initial-IsSound_example = run-initial-IsSound 2 history

joined_lem_example :
    (let p = run (initial 2) history in
      Perm p.queue.accepted p.queue.finished × (p.queue.tasks ≡ []))
unfolding run step initial post close advance_at advance
joined_lem_example = joined_lem 2 history (omega arith) tt

-- One thread sleeps, the other runs a task while the pool is closed.
abbrev half_asleep : WorkerPool ℕ
half_asleep = record {
  queue = record {
    tasks = 5 ∷ [];
    closed = false;
    accepted = 4 ∷ 5 ∷ [];
    started = 4 ∷ [];
    finished = [];
  };
  threads = asleep ∷ running 4 ∷ [];
}

slept : (run {T = ℕ} (initial 1) (advances 0 ∷ [])).threads ≡ asleep ∷ []
unfolding run step initial advance_at advance
slept = refl

abbrev closing : WorkerPool ℕ
closing = shut_down half_asleep (posts 6 ∷ advances 1 ∷ []) (notifies_one 1 ∷ [])

shutdown_ends_example :
    (let q = run closing (schedule (0 ∷ 0 ∷ 1 ∷ [])) in
      (3 + steps_left q ≤ steps_left closing)
      × (AllLeft q.threads
          ⊎ ((i : ℕ) × (thread : Worker ℕ) × (get_elem? q.threads i ≡ some thread)
              × IsBusy thread)))
unfolding run step post close notify_one notify_all advance_at advance
shutdown_ends_example =
    shutdown_ends half_asleep (posts 6 ∷ advances 1 ∷ []) (notifies_one 1 ∷ []) (0 ∷ 0 ∷ 1 ∷ [])
      ((waiting, refl, tt), ((running 5, refl, tt), ((waiting, refl, tt), tt)))
