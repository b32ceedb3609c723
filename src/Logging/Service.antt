-- ===== src/Logging/Service.antt =====
-- src/logging/LogService.cpp: entries written from any thread wait for one consumer. Each method is
-- a few critical sections, each under one lock, so each section is one step here and the threads
-- interleave between them. `due` counts the threads that have left their section and are about to
-- call `notify`, and `calls` counts the calls of the consumer. Printing in a debug build is left out.
pub mod Wakeups
pub mod Entries
pub mod Backlog
pub mod Examples
use workpane.Prelude.{
  ℕ, ◌+◌, ◌-◌, Bool, true, false, not, ◌&&◌, ◌||◌, List, [], ◌∷◌, ◌++◌, length, ◌==◌, if◌then◌else◌,
}

-- `pendingCapacity`.
abbrev pub pending_capacity : ℕ
pending_capacity = 2000

-- An entry is whatever `E` is: the service only carries it.
pub record LogService (E : Type 0) : Type 0 where
  pub pending : List E
  -- Whether `m_notify` holds a consumer.
  pub consumer : Bool
  pub delivering : Bool
  pub notified : Bool
  pub due : ℕ
  pub calls : ℕ

module _ {E : Type 0} where
  abbrev pub is_empty : List E → Bool
  is_empty [] = true
  is_empty (x ∷ xs) = false

  abbrev pub pop_front : List E → List E
  pop_front [] = []
  pop_front (x ∷ xs) = xs

  abbrev pub initial : LogService E
  initial = record {
    pending = [];
    consumer = false;
    delivering = false;
    notified = false;
    due = 0;
    calls = 0;
  }

  -- The section of `write`, up to its call of `notify`.
  unfoldable pub write : E → LogService E → LogService E
  write entry s =
      let kept =
        if not s.delivering && length s.pending == pending_capacity
        then pop_front s.pending
        else s.pending in
      let queued = record s { pending = kept ++ entry ∷ [] } in
      if not s.delivering || s.notified
      then queued
      else record queued { notified = true; due = s.due + 1 }

  -- The two sections of `setDelivery`: the consumer is set, and then entries that wait are told of.
  unfoldable pub set_consumer : LogService E → LogService E
  set_consumer s = record s { consumer = true }

  unfoldable pub start_delivery : LogService E → LogService E
  start_delivery s =
      if is_empty s.pending || s.notified
      then record s { delivering = true }
      else record s { delivering = true; notified = true; due = s.due + 1 }

  -- The two sections of `clearDelivery`.
  unfoldable pub stop_delivery : LogService E → LogService E
  stop_delivery s = record s { delivering = false; notified = false }

  unfoldable pub clear_consumer : LogService E → LogService E
  clear_consumer s = record s { consumer = false }

  unfoldable pub take : LogService E → LogService E × List E
  take s = (record s { pending = []; notified = false }, s.pending)

  -- One of the calls of `notify` that are due.
  unfoldable pub notify : LogService E → LogService E
  notify s = record s { due = s.due - 1; calls = if s.consumer then s.calls + 1 else s.calls }

-- One step of some thread.
pub data Section (E : Type 0) : Type 0 where
  writes : E → Section E
  sets starts stops clears takes notifies : Section E

module _ {E : Type 0} where
  unfoldable pub step : LogService E → Section E → LogService E
  unfolding write set_consumer start_delivery stop_delivery clear_consumer take notify
  step s (writes entry) = write entry s
  step s sets = set_consumer s
  step s starts = start_delivery s
  step s stops = stop_delivery s
  step s clears = clear_consumer s
  step s takes = (take s).0
  step s notifies = if s.due == 0 then s else notify s

  unfoldable pub run : LogService E → List (Section E) → LogService E
  run s [] = s
  run s (x ∷ xs) = run (step s x) xs
