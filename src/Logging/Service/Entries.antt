-- ===== src/Logging/Service/Entries.antt =====
-- Which entries the consumer gets, and how many wait.
use workpane.Prelude.{
  ◌≡◌, true, List, [], ◌∷◌, ◌++◌, arith, All, append_assoc, append-nil, ap, ◌∙◌, sym,
}
use workpane.Logging.Service.{
  LogService, Section, writes, sets, starts, stops, clears, takes, notifies, step, run, take, write,
}

-- The entries that some sections write, in order.
abbrev pub written : {E : Type 0} → List (Section E) → List E
written [] = []
written (writes entry ∷ xs) = entry ∷ written xs
written (x ∷ xs) = written xs

-- The entries that the consumer takes in them, in order.
unfoldable pub delivered : {E : Type 0} → LogService E → List (Section E) → List E
delivered s [] = []
delivered s (takes ∷ xs) = (take s).1 ++ delivered (step s takes) xs
delivered s (x ∷ xs) = delivered (step s x) xs

-- Sections that leave the delivery in place.
abbrev pub IsOpen : {E : Type 0} → Section E → Type 0
IsOpen stops = ⊥
IsOpen x = Unit

module _ {E : Type 0} where
  write-delivering :
      (s : LogService E) (entry : E)
      → s.delivering ≡ true
      → ((write entry s).pending ≡ s.pending ++ entry ∷ []) × ((write entry s).delivering ≡ true)
  unfolding write
  write-delivering s entry d = ground arith

  start-pending : (s : LogService E) → (step s starts).pending ≡ s.pending
  unfolding step
  start-pending s = ground arith

  start-delivering : (s : LogService E) → (step s starts).delivering ≡ true
  unfolding step
  start-delivering s = ground arith

  notify-keeps :
      (s : LogService E)
      → ((step s notifies).pending ≡ s.pending) × ((step s notifies).delivering ≡ s.delivering)
  unfolding step
  notify-keeps s = ground arith

  -- While the delivery stands no entry is lost, doubled or reordered: what the consumer has taken
  -- and what still waits are what waited at first and all that was written since.
  pub delivered-append-pending :
      (s : LogService E) (xs : List (Section E))
      → s.delivering ≡ true
      → All IsOpen xs
      → delivered s xs ++ (run s xs).pending ≡ s.pending ++ written xs
  unfolding run delivered step take
  delivered-append-pending s [] d o = sym (append-nil s.pending)
  delivered-append-pending s (writes entry ∷ xs) d o =
      let (p, e) = write-delivering s entry d in
      delivered-append-pending (step s (writes entry)) xs e o.1
      ∙ ap (λ (l : List E). l ++ written xs) p
      ∙ append_assoc s.pending (entry ∷ []) (written xs)
  delivered-append-pending s (sets ∷ xs) d o = delivered-append-pending (step s sets) xs d o.1
  delivered-append-pending s (starts ∷ xs) d o =
      delivered-append-pending (step s starts) xs (start-delivering s) o.1
      ∙ ap (λ (l : List E). l ++ written xs) (start-pending s)
  delivered-append-pending s (clears ∷ xs) d o = delivered-append-pending (step s clears) xs d o.1
  delivered-append-pending s (notifies ∷ xs) d o =
      let (p, e) = notify-keeps s in
      delivered-append-pending (step s notifies) xs (e ∙ d) o.1
      ∙ ap (λ (l : List E). l ++ written xs) p
  delivered-append-pending s (takes ∷ xs) d o =
      append_assoc s.pending (delivered (step s takes) xs) (run (step s takes) xs).pending
      ∙ ap (λ (l : List E). s.pending ++ l) (delivered-append-pending (step s takes) xs d o.1)
  delivered-append-pending s (stops ∷ xs) d o = absurd o.0
