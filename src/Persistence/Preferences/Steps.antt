-- ===== src/Persistence/Preferences/Steps.antt =====
-- The histories of a preference store: calls of the interface thread, turns of the worker and completions,
-- in any order.
use workpane.Prelude.{ℕ, suc, Bool, false, List, [], ◌∷◌, ◌++◌, ◌≡◌, if◌then◌else◌}
use workpane.Prelude.Bytes.{Bytes, same}
use workpane.Result.{Result}
use workpane.Persistence.Preferences.{World, Write, belongs, write, work, deliver, erase, discard}

module _ {J : Type 0} where
  abbrev pub writes : List (Write J × Result (Unit {0})) → List (Write J)
  writes [] = []
  writes ((x, result) ∷ rest) = x ∷ writes rest

  -- The writes that were submitted and whose completion has not run, the oldest first.
  abbrev pub outstanding : World J → List (Write J)
  outstanding w = writes w.returned ++ w.queue

  unfoldable pub writes_of : Bytes → List (Write J) → List (Write J)
  writes_of owner [] = []
  writes_of owner (x ∷ xs) =
      let more = writes_of owner xs in if same x.owner owner then x ∷ more else more

  -- The document of the last write, or the one that is given.
  abbrev pub latest : J → List (Write J) → J
  latest d [] = d
  latest d (x ∷ xs) = latest x.document xs

module _ {J : Type 0} (is_object : J → Bool) (empty : J) where
  -- What happens beside an owner whose plugin nobody erases: the rows of another plugin are erased by the
  -- worker, and its entries are discarded by the interface thread, at any moments.
  pub data Step (owner : Bytes) : World J → World J → Type 0 where
    writing :
        {w : World J} (writer : Bytes) (document : J)
        → Step owner w (write is_object empty writer document w)
    working :
        {w : World J} (result : Result (Unit {0})) → Step owner w (work is_object empty result w)
    delivering : {w : World J} → Step owner w (deliver is_object empty w)
    erasing :
        {w : World J} (plugin : Bytes)
        → belongs owner plugin ≡ false
        → Step owner w (erase is_object empty plugin w)
    discarding :
        {w : World J} (plugin : Bytes)
        → belongs owner plugin ≡ false
        → Step owner w (discard is_object empty plugin w)

  -- Some steps, by their number.
  pub data Run (owner : Bytes) : ℕ → World J → World J → Type 0 where
    none_yet : {w : World J} → Run owner 0 w w
    step_to :
        {n : ℕ} {w w' w'' : World J}
        → Run owner n w w'
        → Step owner w' w''
        → Run owner (suc n) w w''
