-- ===== src/Execution/MainThread.antt =====
-- src/execution/MainThreadQueue.cpp: work posted from any thread, run by the frame loop. A task is
-- whatever `T` is. What a running task posts is a `post` like any other, so the posts of all threads
-- and of the tasks themselves are the sections that stand between the runs of a drain.
pub mod Order
pub mod Examples
use workpane.Prelude.{ℕ, ◌+◌, Bool, true, false, List, [], ◌∷◌, ◌++◌, if◌then◌else◌}

pub record MainThreadQueue (T : Type 0) : Type 0 where
  pub tasks : List T
  -- Whether `m_wake` holds a handler.
  pub wake : Bool

-- The queue with the frame loop: `ready` is what a drain has still to run, `ran` what the drains
-- have run, and `wakes` counts the calls of the handler.
pub record Frame (T : Type 0) : Type 0 where
  pub queue : MainThreadQueue T
  pub ready : List T
  pub ran : List T
  pub wakes : ℕ

module _ {T : Type 0} where
  abbrev pub initial : Frame T
  initial = record { queue = record { tasks = []; wake = false }; ready = []; ran = []; wakes = 0 }

  unfoldable pub set_wake_handler : Bool → Frame T → Frame T
  set_wake_handler handler f = record f { queue = record f.queue { wake = handler } }

  unfoldable pub post : T → Frame T → Frame T
  post task f = record f {
    queue = record f.queue { tasks = f.queue.tasks ++ task ∷ [] };
    wakes = if f.queue.wake then f.wakes + 1 else f.wakes;
  }

  -- The locked section of `drain`. The frame loop begins a drain only when the last one has ended.
  unfoldable pub begin_drain : Frame T → Frame T
  begin_drain f = record f { queue = record f.queue { tasks = [] }; ready = f.queue.tasks }

  -- One round of its loop.
  abbrev next_task : List T → Frame T → Frame T
  next_task [] f = f
  next_task (task ∷ rest) f = record f { ready = rest; ran = f.ran ++ task ∷ [] }

  unfoldable pub run_next : Frame T → Frame T
  run_next f = next_task f.ready f

  abbrev pub is_empty : Frame T → Bool
  is_empty f = elim f.queue.tasks [ [] ↦ true | task ∷ rest ↦ false ]

pub data Section (T : Type 0) : Type 0 where
  sets : Bool → Section T
  posts : T → Section T
  begins runs : Section T

module _ {T : Type 0} where
  unfoldable pub step : Frame T → Section T → Frame T
  unfolding set_wake_handler post begin_drain run_next
  step f (sets handler) = set_wake_handler handler f
  step f (posts task) = post task f
  step f begins = elim f.ready [ [] ↦ begin_drain f | task ∷ rest ↦ f ]
  step f runs = run_next f

  unfoldable pub run : Frame T → List (Section T) → Frame T
  run f [] = f
  run f (x ∷ xs) = run (step f x) xs
