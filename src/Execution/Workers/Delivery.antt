-- ===== src/Execution/Workers/Delivery.antt =====
-- Every task that the pool accepts is run once, whichever thread takes it.
use mathlib.Core.List.{Perm}
use mathlib.Core.List.Perm
use workpane.Prelude.{
  ℕ, zero, suc, ◌<◌, ◌≡◌, inl, inr, List, [], ◌∷◌, ◌++◌, refl, ap, ◌∙◌, sym, append_assoc,
  append-nil, length, subst, replicate, Bool-cases,
}
use workpane.Execution.Workers.{
  Worker, waiting, asleep, running, returned, WorkerPool, initial, post, close, Section, posts,
  closes, notifies_one, notifies_all, advances, step, run,
}
use workpane.Execution.Workers.Hands.{
  in_hand, Left, AllLeft, advance_at-Matches, in_hand-notify_one, in_hand-notify_all,
  Left-notify_one, Left-notify_all,
}
use workpane.Execution.Workers.Closing.{Drained, advance_at-IsOrdered, advance_at-Left}

module _ {T : Type 0} where
  pub record IsSound (p : WorkerPool T) : Type 0 where
    pub order : p.queue.started ++ p.queue.tasks ≡ p.queue.accepted
    pub hands : Perm p.queue.started (p.queue.finished ++ in_hand p.threads)
    pub left : Left p.threads → Drained p.queue

  post-IsSound : (p : WorkerPool T) (task : T) → IsSound p → IsSound (step p (posts task))
  unfolding step post
  post-IsSound p task s = elim (Bool-cases p.queue.closed) [
    | inl c ↦ rw c (record { order = s.order; hands = s.hands; left = λ l. (refl, (s.left l).1) })
    | inr c ↦ rw c (record {
      order =
          sym (append_assoc p.queue.started p.queue.tasks (task ∷ []))
          ∙ ap (λ (l : List T). l ++ task ∷ []) s.order;
      hands = s.hands;
      left = λ l. absurd (cc (sym (s.left l).0 ∙ c));
    })
  ]

  step-IsSound : (p : WorkerPool T) (x : Section T) → IsSound p → IsSound (step p x)
  unfolding step close
  step-IsSound p (posts task) s = post-IsSound p task s
  step-IsSound p closes s = record {
    order = s.order;
    hands = s.hands;
    left = λ l. (refl, (s.left l).1);
  }
  step-IsSound p (notifies_one i) s = record {
    order = s.order;
    hands = rw (in_hand-notify_one i p.threads) s.hands;
    left = λ l. s.left (Left-notify_one i p.threads l);
  }
  step-IsSound p notifies_all s = record {
    order = s.order;
    hands = rw (in_hand-notify_all p.threads) s.hands;
    left = λ l. s.left (Left-notify_all p.threads l);
  }
  step-IsSound p (advances i) s = record {
    order = advance_at-IsOrdered i p.threads p.queue s.order;
    hands = advance_at-Matches i p.threads p.queue [] s.hands;
    left = advance_at-Left i p.threads p.queue s.left;
  }

  initial-IsSound : (thread_count : ℕ) → IsSound (initial thread_count)
  unfolding initial
  initial-IsSound thread_count = record {
    order = refl;
    hands = rw (replicate-in_hand thread_count) (Perm.refl []);
    left = λ l. absurd (replicate-Left thread_count l);
  }
    where
      replicate-in_hand : (n : ℕ) → in_hand {T = T} (replicate n waiting) ≡ []
      replicate-in_hand zero = refl
      replicate-in_hand (suc n) = replicate-in_hand n

      replicate-Left : (n : ℕ) → Left {T = T} (replicate n waiting) → ⊥
      replicate-Left zero l = l
      replicate-Left (suc n) l = replicate-Left n l

  run-IsSound : (p : WorkerPool T) (xs : List (Section T)) → IsSound p → IsSound (run p xs)
  unfolding run
  run-IsSound p [] s = s
  run-IsSound p (x ∷ xs) s = run-IsSound (step p x) xs (step-IsSound p x s)

  -- In every interleaving the tasks are started in the order in which they were accepted, and those
  -- started are, each as often, those that have finished and those that some thread is running; a
  -- thread has left its loop only if the pool is closed and no task waits.
  pub run-initial-IsSound :
      (thread_count : ℕ) (xs : List (Section T)) → IsSound (run (initial thread_count) xs)
  run-initial-IsSound thread_count xs =
      run-IsSound (initial thread_count) xs (initial-IsSound thread_count)

  in_hand-AllLeft : (threads : List (Worker T)) → AllLeft threads → in_hand threads ≡ []
  in_hand-AllLeft [] a = refl
  in_hand-AllLeft (waiting ∷ threads) a = absurd a
  in_hand-AllLeft (asleep ∷ threads) a = absurd a
  in_hand-AllLeft (running task ∷ threads) a = absurd a
  in_hand-AllLeft (returned ∷ threads) a = in_hand-AllLeft threads a

  Left-AllLeft : (threads : List (Worker T)) → 0 < length threads → AllLeft threads → Left threads
  Left-AllLeft [] h a = elim h [ ]
  Left-AllLeft (waiting ∷ threads) h a = absurd a
  Left-AllLeft (asleep ∷ threads) h a = absurd a
  Left-AllLeft (running task ∷ threads) h a = absurd a
  Left-AllLeft (returned ∷ threads) h a = tt

  -- When `shutdown` has joined the threads of a pool that has any, every accepted task has finished,
  -- each exactly as often as it was accepted, and none waits.
  pub joined_lem :
      (thread_count : ℕ) (xs : List (Section T))
      → 0 < length (run (initial thread_count) xs).threads
      → AllLeft (run (initial thread_count) xs).threads
      → Perm
          (run (initial thread_count) xs).queue.accepted
          (run (initial thread_count) xs).queue.finished
        × ((run (initial thread_count) xs).queue.tasks ≡ [])
  joined_lem thread_count xs h a =
      let p = run (initial thread_count) xs in
      let s = run-initial-IsSound thread_count xs in
      let (c, e) = s.left (Left-AllLeft p.threads h a) in
      (
        subst (λ (l : List T). Perm l p.queue.finished)
            (sym (append-nil p.queue.started)
              ∙ ap (λ (l : List T). p.queue.started ++ l) (sym e)
              ∙ s.order)
            (rw (in_hand-AllLeft p.threads a, append-nil p.queue.finished) at s.hands),
        e,
      )
