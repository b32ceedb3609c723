-- ===== src/Execution/Workers.antt =====
-- src/execution/WorkerPool.cpp: threads that share one queue of tasks. The locked sections of the
-- methods and of the threads' loops are steps, in any interleaving; which thread goes next is the
-- schedule's choice. A notification is a step of its own, behind the section of `post` or `shutdown`; which
-- thread `notify_one` wakes is the schedule's choice too, and it may wake one unasked. A task is whatever `T`
-- is, and ends; a thread between two tasks tests what it waits for.
pub mod Hands
pub mod Closing
pub mod Waking
pub mod Progress
pub mod Delivery
pub mod Examples
use workpane.Prelude.{
  ℕ, zero, suc, Bool, true, false, List, [], ◌∷◌, ◌++◌, if◌then◌else◌, replicate,
}

-- A thread of the pool: it is about to test what it waits for in `run`, sleeps until it is notified, runs a
-- task, or has left its loop.
pub data Worker (T : Type 0) : Type 0 where
  waiting asleep returned : Worker T
  running : T → Worker T

-- `accepted`, `started` and `finished` are the history of the queue, which no code reads.
pub record Queue (T : Type 0) : Type 0 where
  pub tasks : List T
  pub closed : Bool
  pub accepted : List T
  pub started : List T
  pub finished : List T

pub record WorkerPool (T : Type 0) : Type 0 where
  pub queue : Queue T
  pub threads : List (Worker T)

module _ {T : Type 0} where
  abbrev pub empty : Queue T
  empty = record { tasks = []; closed = false; accepted = []; started = []; finished = [] }

  -- The constructor.
  unfoldable pub initial : ℕ → WorkerPool T
  initial thread_count = record { queue = empty; threads = replicate thread_count waiting }

  unfoldable pub post : T → Queue T → Queue T
  post task q =
      if q.closed
      then q
      else record q { tasks = q.tasks ++ task ∷ []; accepted = q.accepted ++ task ∷ [] }

  -- The locked section of `shutdown`; `notify_all` comes behind it, and then the joins.
  unfoldable pub close : Queue T → Queue T
  close q = record q { closed = true }

  -- The locked section of `run`: the thread falls asleep, the loop returns, or the oldest task is taken.
  unfoldable pub take_task : List T → Queue T → Worker T × Queue T
  take_task [] q = if q.closed then (returned, q) else (asleep, q)
  take_task (task ∷ rest) q =
      (running task, record q { tasks = rest; started = q.started ++ task ∷ [] })

  -- One step of one thread.
  unfoldable pub advance : Worker T → Queue T → Worker T × Queue T
  unfolding take_task
  advance waiting q = take_task q.tasks q
  advance (running task) q = (waiting, record q { finished = q.finished ++ task ∷ [] })
  advance asleep q = (asleep, q)
  advance returned q = (returned, q)

  unfoldable pub advance_at : ℕ → List (Worker T) → Queue T → List (Worker T) × Queue T
  advance_at i [] q = ([], q)
  advance_at zero (thread ∷ threads) q =
      let (thread', q') = advance thread q in (thread' ∷ threads, q')
  advance_at (suc i) (thread ∷ threads) q =
      let (threads', q') = advance_at i threads q in (thread ∷ threads', q')

  abbrev pub woken : Worker T → Worker T
  woken waiting = waiting
  woken asleep = waiting
  woken (running task) = running task
  woken returned = returned

  -- `m_ready.notify_one()`, which wakes one thread.
  unfoldable pub notify_one : ℕ → List (Worker T) → List (Worker T)
  notify_one i [] = []
  notify_one zero (thread ∷ threads) = woken thread ∷ threads
  notify_one (suc i) (thread ∷ threads) = thread ∷ notify_one i threads

  -- `m_ready.notify_all()`.
  unfoldable pub notify_all : List (Worker T) → List (Worker T)
  notify_all [] = []
  notify_all (thread ∷ threads) = woken thread ∷ notify_all threads

pub data Section (T : Type 0) : Type 0 where
  posts : T → Section T
  closes : Section T
  notifies_one : ℕ → Section T
  notifies_all : Section T
  advances : ℕ → Section T

module _ {T : Type 0} where
  unfoldable pub step : WorkerPool T → Section T → WorkerPool T
  step p (posts task) = record p { queue = post task p.queue }
  step p closes = record p { queue = close p.queue }
  step p (notifies_one i) = record p { threads = notify_one i p.threads }
  step p notifies_all = record p { threads = notify_all p.threads }
  step p (advances i) =
      let (threads, q) = advance_at i p.threads p.queue in record { queue = q; threads = threads }

  unfoldable pub run : WorkerPool T → List (Section T) → WorkerPool T
  run p [] = p
  run p (x ∷ xs) = run (step p x) xs
