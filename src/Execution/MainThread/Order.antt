-- ===== src/Execution/MainThread/Order.antt =====
-- Every task runs once, in the order of the posts, and a drain runs what was posted before it.
use workpane.Prelude.{
  ℕ, suc, ◌-◌, ◌≡◌, List, [], ◌∷◌, ◌++◌, arith, All, refl, ap, ◌∙◌, sym, append_assoc, append-nil,
  length,
}
use workpane.Execution.MainThread.{
  Frame, Section, sets, posts, begins, runs, step, run, next_task, begin_drain,
}

-- The tasks that some sections post, in order.
abbrev pub posted : {T : Type 0} → List (Section T) → List T
posted [] = []
posted (posts task ∷ xs) = task ∷ posted xs
posted (x ∷ xs) = posted xs

-- How many rounds of the drain they make.
abbrev pub rounds : {T : Type 0} → List (Section T) → ℕ
rounds [] = 0
rounds (runs ∷ xs) = suc (rounds xs)
rounds (x ∷ xs) = rounds xs

-- Sections in which no further drain begins.
abbrev pub IsWithin : {T : Type 0} → Section T → Type 0
IsWithin begins = ⊥
IsWithin x = Unit

module _ {T : Type 0} where
  abbrev pub all : Frame T → List T
  all f = (f.ran ++ f.ready) ++ f.queue.tasks

  next_task-all : (ready : List T) (f : Frame T) → f.ready ≡ ready → all (next_task ready f) ≡ all f
  next_task-all [] f e = refl
  next_task-all (task ∷ rest) f e =
      ap (λ (l : List T). l ++ f.queue.tasks)
        (append_assoc f.ran (task ∷ []) rest ∙ ap (λ (l : List T). f.ran ++ l) (sym e))

  begin-all : (ready : List T) (f : Frame T) → f.ready ≡ ready → all (step f begins) ≡ all f
  unfolding step
  begin-all [] f e = rw (e, step) (append-nil (f.ran ++ f.queue.tasks) ∙ rw (append-nil f.ran))
  begin-all (task ∷ rest) f e = rw (e, step) (rw (← e))

  step-all : (f : Frame T) (x : Section T) → all (step f x) ≡ all f ++ posted (x ∷ [])
  unfolding step
  step-all f (sets handler) = sym (append-nil (all f))
  step-all f (posts task) = sym (append_assoc (f.ran ++ f.ready) f.queue.tasks (task ∷ []))
  step-all f begins = begin-all f.ready f refl ∙ sym (append-nil (all f))
  step-all f runs = next_task-all f.ready f refl ∙ sym (append-nil (all f))

  posted-append :
      (x : Section T) (xs : List (Section T)) → posted (x ∷ []) ++ posted xs ≡ posted (x ∷ xs)
  posted-append (sets handler) xs = refl
  posted-append (posts task) xs = refl
  posted-append begins xs = refl
  posted-append runs xs = refl

  -- Through any interleaving of posts from any thread and of drains, the tasks that have run, those
  -- that the current drain has still to run and those that wait are together exactly the posted
  -- ones in the order of the posts: none is lost, run twice or overtaken.
  pub run-all : (f : Frame T) (xs : List (Section T)) → all (run f xs) ≡ all f ++ posted xs
  unfolding run
  run-all f [] = sym (append-nil (all f))
  run-all f (x ∷ xs) =
      run-all (step f x) xs
      ∙ ap (λ (l : List T). l ++ posted xs) (step-all f x)
      ∙ append_assoc (all f) (posted (x ∷ [])) (posted xs)
      ∙ ap (λ (l : List T). all f ++ l) (posted-append x xs)

  -- What a drain that is under way keeps.
  record Drains (ran ready : List T) (count : ℕ) (f : Frame T) (tasks : List T) : Type 0 where
    batch : f.ran ++ f.ready ≡ ran ++ ready
    left : length f.ready ≡ length ready - count
    waits : f.queue.tasks ≡ tasks

  next_task-Drains :
      (ready : List T) (f : Frame T)
      → f.ready ≡ ready
      → Drains f.ran f.ready 1 (next_task ready f) f.queue.tasks
  next_task-Drains [] f e = record { batch = refl; left = omega (arith, ap length e); waits = refl }
  next_task-Drains (task ∷ rest) f e = record {
    batch = append_assoc f.ran (task ∷ []) rest ∙ ap (λ (l : List T). f.ran ++ l) (sym e);
    left = omega (arith, ap length e);
    waits = refl;
  }

  run-Drains :
      (f : Frame T) (xs : List (Section T))
      → All IsWithin xs
      → Drains f.ran f.ready (rounds xs) (run f xs) (f.queue.tasks ++ posted xs)
  unfolding run step
  run-Drains f [] w = record {
    batch = refl;
    left = omega arith;
    waits = sym (append-nil f.queue.tasks);
  }
  run-Drains f (sets handler ∷ xs) w =
      let d = run-Drains (step f (sets handler)) xs w.1 in
      record { batch = d.batch; left = d.left; waits = d.waits }
  run-Drains f (posts task ∷ xs) w =
      let d = run-Drains (step f (posts task)) xs w.1 in
      record {
        batch = d.batch;
        left = d.left;
        waits = d.waits ∙ append_assoc f.queue.tasks (task ∷ []) (posted xs);
      }
  run-Drains f (runs ∷ xs) w =
      let d = run-Drains (step f runs) xs w.1 in
      let n = next_task-Drains f.ready f refl in
      record {
        batch = d.batch ∙ n.batch;
        left = omega (arith, d.left, n.left);
        waits = d.waits ∙ ap (λ (l : List T). l ++ posted xs) n.waits;
      }
  run-Drains f (begins ∷ xs) w = absurd w.0

  length-zero : (xs : List T) → length xs ≡ 0 → xs ≡ []
  length-zero [] h = refl
  length-zero (x ∷ xs) h = absurd (omega arith)

  begun :
      (f : Frame T) (xs : List (Section T))
      → f.ready ≡ []
      → run f (begins ∷ xs) ≡ run (begin_drain f) xs
  unfolding run step
  begun f xs e = rw (e, step)

  -- One drain: whatever is posted while it runs, by any thread or by the tasks that it runs, after
  -- as many rounds as tasks waited when it began it has run exactly those, in their order, and has
  -- ended; every task posted meanwhile still waits, for the next drain.
  pub drain_lem :
      (f : Frame T) (xs : List (Section T))
      → f.ready ≡ []
      → All IsWithin xs
      → rounds xs ≡ length f.queue.tasks
      → (let g = run f (begins ∷ xs) in
          (g.ran ≡ f.ran ++ f.queue.tasks) × (g.ready ≡ []) × (g.queue.tasks ≡ posted xs))
  unfolding begin_drain
  drain_lem f xs e w n =
      let d = run-Drains (begin_drain f) xs w in
      let z = length-zero (run (begin_drain f) xs).ready (omega (arith, d.left)) in
      let b = d.batch in
      rw (begun f xs e) (
        sym (append-nil _) ∙ ap (λ (l : List T). (run (begin_drain f) xs).ran ++ l) (sym z) ∙ b,
        z,
        d.waits,
      )
