-- ===== src/Execution/MainThread/Examples.antt =====
-- Tests of the queue and its theorems at concrete histories.
use workpane.Prelude.{ℕ, ◌≡◌, refl, List, [], ◌∷◌, true, arith}
use workpane.Execution.MainThread.{Frame, Section, posts, begins, runs, step, run}
use workpane.Execution.MainThread.Order.{all, run-all, drain_lem}

abbrev waiting : Frame ℕ
waiting = record {
  queue = record { tasks = 1 ∷ 2 ∷ []; wake = true };
  ready = [];
  ran = [];
  wakes = 2;
}

-- The first task posts a third one, which waits for the next drain.
abbrev frame : List (Section ℕ)
frame = runs ∷ posts 3 ∷ runs ∷ []

frame_runs : (run waiting (begins ∷ frame)).ran ≡ 1 ∷ 2 ∷ []
unfolding run step
frame_runs = refl

frame_wakes : (run waiting (begins ∷ frame)).wakes ≡ 3
unfolding run step
frame_wakes = refl

run-all_example : all (run waiting (begins ∷ frame)) ≡ 1 ∷ 2 ∷ 3 ∷ []
run-all_example = run-all waiting (begins ∷ frame)

drain_lem_example :
    (let g = run waiting (begins ∷ frame) in
      (g.ran ≡ 1 ∷ 2 ∷ []) × (g.ready ≡ []) × (g.queue.tasks ≡ 3 ∷ []))
drain_lem_example = drain_lem waiting frame refl (tt, (tt, (tt, tt))) (omega arith)
