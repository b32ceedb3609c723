-- ===== src/Execution/Workers/Hands.antt =====
-- The tasks in the hands of the threads, through one step of a thread.
use mathlib.Core.List.{Perm, perm_middle, perm_append_singleton}
use mathlib.Core.List.Perm
use workpane.Prelude.{
  ℕ, zero, suc, ◌≡◌, inl, inr, List, [], ◌∷◌, ◌++◌, refl, sym, ap, ap₂, ◌∙◌, append_assoc,
  Bool-cases,
}
use workpane.Execution.Workers.{
  Worker, waiting, asleep, running, returned, woken, notify_one, notify_all, Queue, take_task,
  advance, advance_at,
}

module _ {T : Type 0} where
  -- The tasks that the threads are running.
  abbrev pub in_hand : List (Worker T) → List T
  in_hand [] = []
  in_hand (waiting ∷ threads) = in_hand threads
  in_hand (asleep ∷ threads) = in_hand threads
  in_hand (returned ∷ threads) = in_hand threads
  in_hand (running task ∷ threads) = task ∷ in_hand threads

  -- Whether some thread has left its loop.
  abbrev pub Left : List (Worker T) → Type 0
  Left [] = ⊥
  Left (waiting ∷ threads) = Left threads
  Left (asleep ∷ threads) = Left threads
  Left (running task ∷ threads) = Left threads
  Left (returned ∷ threads) = Unit

  -- Every thread has left its loop, which is what `shutdown` joins them for.
  abbrev pub AllLeft : List (Worker T) → Type 0
  AllLeft [] = Unit
  AllLeft (returned ∷ threads) = AllLeft threads
  AllLeft (thread ∷ threads) = ⊥

  abbrev pub Matches : Queue T → List T → Type 0
  Matches q hands = Perm q.started (q.finished ++ hands)

  -- One more task in hand, or one less, among those of the other threads.
  start-Matches :
      (task : T) (started finished before after : List T)
      → Perm started (finished ++ (before ++ after))
      → Perm (started ++ task ∷ []) (finished ++ (before ++ task ∷ after))
  start-Matches task started finished before after h =
      Perm.trans (perm_append_singleton task started) (
        Perm.trans (Perm.cons task h) (
          Perm.trans (Perm.symm (perm_middle finished (before ++ after)))
            (Perm.append_left finished (Perm.symm (perm_middle before after)))))

  finish-Matches :
      (task : T) (started finished before after : List T)
      → Perm started (finished ++ (before ++ task ∷ after))
      → Perm started ((finished ++ task ∷ []) ++ (before ++ after))
  finish-Matches task started finished before after h =
      rw (append_assoc finished (task ∷ []) (before ++ after))
        (Perm.trans h (Perm.append_left finished (perm_middle before after)))

  take_task-Matches :
      (tasks : List T) (q : Queue T) (before : List T) (threads : List (Worker T))
      → Matches q (before ++ in_hand threads)
      → Matches (take_task tasks q).1 (before ++ in_hand ((take_task tasks q).0 ∷ threads))
  unfolding take_task
  take_task-Matches [] q before threads h = elim (Bool-cases q.closed) [
    | inl e ↦ rw e h
    | inr e ↦ rw e h
  ]
  take_task-Matches (task ∷ rest) q before threads h =
      start-Matches task q.started q.finished before (in_hand threads) h

  advance-Matches :
      (thread : Worker T) (q : Queue T) (before : List T) (threads : List (Worker T))
      → Matches q (before ++ in_hand (thread ∷ threads))
      → Matches (advance thread q).1 (before ++ in_hand ((advance thread q).0 ∷ threads))
  unfolding advance
  advance-Matches waiting q before threads h = take_task-Matches q.tasks q before threads h
  advance-Matches (running task) q before threads h =
      finish-Matches task q.started q.finished before (in_hand threads) h
  advance-Matches asleep q before threads h = h
  advance-Matches returned q before threads h = h

  abbrev hand : Worker T → List T
  hand thread = in_hand (thread ∷ [])

  in_hand-cons :
      (thread : Worker T) (threads : List (Worker T))
      → in_hand (thread ∷ threads) ≡ hand thread ++ in_hand threads
  in_hand-cons waiting threads = refl
  in_hand-cons (running task) threads = refl
  in_hand-cons asleep threads = refl
  in_hand-cons returned threads = refl

  -- A notification changes nothing of this.
  hand-woken : (thread : Worker T) → hand (woken thread) ≡ hand thread
  hand-woken waiting = refl
  hand-woken asleep = refl
  hand-woken (running task) = refl
  hand-woken returned = refl

  in_hand-woken :
      (thread : Worker T) (ts us : List (Worker T))
      → in_hand ts ≡ in_hand us
      → in_hand (woken thread ∷ ts) ≡ in_hand (thread ∷ us)
  in_hand-woken thread ts us e =
      in_hand-cons (woken thread) ts
      ∙ ap₂ (λ (xs ys : List T). xs ++ ys) (hand-woken thread) e
      ∙ sym (in_hand-cons thread us)

  pub in_hand-notify_one :
      (i : ℕ) (threads : List (Worker T)) → in_hand (notify_one i threads) ≡ in_hand threads
  unfolding notify_one
  in_hand-notify_one i [] = refl
  in_hand-notify_one zero (thread ∷ threads) = in_hand-woken thread threads threads refl
  in_hand-notify_one (suc i) (thread ∷ threads) =
      in_hand-cons thread (notify_one i threads)
      ∙ ap (λ (ys : List T). hand thread ++ ys) (in_hand-notify_one i threads)
      ∙ sym (in_hand-cons thread threads)

  pub in_hand-notify_all :
      (threads : List (Worker T)) → in_hand (notify_all threads) ≡ in_hand threads
  unfolding notify_all
  in_hand-notify_all [] = refl
  in_hand-notify_all (thread ∷ threads) =
      in_hand-woken thread (notify_all threads) threads (in_hand-notify_all threads)

  pub Left-notify_one :
      (i : ℕ) (threads : List (Worker T)) → Left (notify_one i threads) → Left threads
  unfolding notify_one
  Left-notify_one i [] l = l
  Left-notify_one zero (waiting ∷ threads) l = l
  Left-notify_one zero (asleep ∷ threads) l = l
  Left-notify_one zero (running task ∷ threads) l = l
  Left-notify_one zero (returned ∷ threads) l = l
  Left-notify_one (suc i) (waiting ∷ threads) l = Left-notify_one i threads l
  Left-notify_one (suc i) (asleep ∷ threads) l = Left-notify_one i threads l
  Left-notify_one (suc i) (running task ∷ threads) l = Left-notify_one i threads l
  Left-notify_one (suc i) (returned ∷ threads) l = l

  pub Left-notify_all : (threads : List (Worker T)) → Left (notify_all threads) → Left threads
  unfolding notify_all
  Left-notify_all [] l = l
  Left-notify_all (waiting ∷ threads) l = Left-notify_all threads l
  Left-notify_all (asleep ∷ threads) l = Left-notify_all threads l
  Left-notify_all (running task ∷ threads) l = Left-notify_all threads l
  Left-notify_all (returned ∷ threads) l = l

  pub advance_at-Matches :
      (i : ℕ) (threads : List (Worker T)) (q : Queue T) (before : List T)
      → Matches q (before ++ in_hand threads)
      → Matches (advance_at i threads q).1 (before ++ in_hand (advance_at i threads q).0)
  unfolding advance_at
  advance_at-Matches i [] q before h = h
  advance_at-Matches zero (thread ∷ threads) q before h = advance-Matches thread q before threads h
  advance_at-Matches (suc i) (thread ∷ threads) q before h =
      rw (in_hand-cons thread (advance_at i threads q).0) (
        rw (← append_assoc before (hand thread) (in_hand (advance_at i threads q).0)) (
          advance_at-Matches i threads q (before ++ hand thread) (
            rw (append_assoc before (hand thread) (in_hand threads))
              (rw (← in_hand-cons thread threads) h))))
