-- ===== src/Logging/Service/Examples.antt =====
-- Tests of the service and its theorems at concrete histories.
use workpane.Prelude.{
  ℕ, ◌≡◌, ◌≢◌, ◌⊎◌, refl, List, [], ◌∷◌, ◌++◌, true, false, arith, map, length, drop, ◌-◌,
  replicate, length-replicate,
}
use workpane.Logging.Service.{
  LogService, Section, writes, takes, notifies, run, take, initial, pending_capacity,
}
use workpane.Logging.Service.Wakeups.{take_notifies_once}
use workpane.Logging.Service.Entries.{delivered, delivered-append-pending}
use workpane.Logging.Service.Backlog.{run-initial-newest, run-overflow}

abbrev served : LogService ℕ
served = record {
  pending = 7 ∷ [];
  consumer = true;
  delivering = true;
  notified = true;
  due = 0;
  calls = 1;
}

-- Two writers, one of them between its section and its call of the consumer.
abbrev traffic : List (Section ℕ)
traffic = writes 1 ∷ writes 2 ∷ notifies ∷ []

take_notifies_once_example :
    (let t = run (take served).0 traffic in
      ((t.pending ≡ []) × (t.calls ≡ 1) × (t.due ≡ 0))
      ⊎ ((t.pending ≢ []) × (((t.calls ≡ 2) × (t.due ≡ 0)) ⊎ ((t.calls ≡ 1) × (t.due ≡ 1)))))
take_notifies_once_example = take_notifies_once served traffic refl refl refl (tt, (tt, (tt, tt)))

delivered-append-pending_example :
    delivered served (writes 1 ∷ takes ∷ writes 2 ∷ [])
      ++ (run served (writes 1 ∷ takes ∷ writes 2 ∷ [])).pending
    ≡ 7 ∷ 1 ∷ 2 ∷ []
delivered-append-pending_example =
    delivered-append-pending served (writes 1 ∷ takes ∷ writes 2 ∷ []) refl (tt, (tt, (tt, tt)))

run-initial-newest_example :
    (run initial (map writes (replicate {A = ℕ} 2001 5))).pending
    ≡ drop (length (replicate {A = ℕ} 2001 5) - pending_capacity) (replicate {A = ℕ} 2001 5)
run-initial-newest_example = run-initial-newest (replicate {A = ℕ} 2001 5)

-- A consumer that takes nothing while 2001 entries are written, and then goes.
abbrev overflowed : LogService ℕ
overflowed = record {
  pending = replicate {A = ℕ} 2001 5;
  consumer = false;
  delivering = false;
  notified = false;
  due = 0;
  calls = 1;
}

run-overflow_example :
    (run overflowed (map writes (6 ∷ 7 ∷ []))).pending ≡ replicate {A = ℕ} 2001 5 ++ 6 ∷ 7 ∷ []
run-overflow_example =
    run-overflow overflowed (6 ∷ 7 ∷ []) refl (omega (arith, length-replicate {A = ℕ} 2001 5))
