-- ===== src/Persistence/Preferences.antt =====
-- `PreferenceStore` of src/persistence/PreferenceStore.cpp with the `DatabaseExecutor` that it submits its
-- writes to: a worker runs them in turn, and their results come back to the interface thread in turn. `J`
-- is a JSON value of nlohmann::json. The map of entries and the rows of `core_settings` are lists.
pub mod Steps
pub mod Latest
pub mod Keeping
pub mod Reading
pub mod Examples
use Prim.Native.String.{String}
use workpane.Prelude.{
  ℕ, ◌+◌, ◌%◌, ◌^◌, Bool, true, false, not, ◌&&◌, ◌||◌, List, [], ◌∷◌, ◌++◌, Option, none, some,
  map, ltb, ◌==◌, if◌then◌else◌, length, get_or,
}
use workpane.Prelude.Bytes.{Bytes, same, starts_with, cut}
use workpane.Result.{Error, Result, success, failure, bytes}

pub record Entry (J : Type 0) : Type 0 where
  pub current : J
  pub committed : J
  pub revision : ℕ

-- What the callbacks of a write carry.
pub record Write (J : Type 0) : Type 0 where
  pub owner : Bytes
  pub document : J
  pub revision : ℕ

-- The entries, the writes that wait for the worker, those that wait with their results for the interface
-- thread, what has been answered, and the rows of the database that hold an object.
pub record World (J : Type 0) : Type 0 where
  pub entries : List (Bytes × Entry J)
  pub queue : List (Write J)
  pub returned : List (Write J × Result (Unit {0}))
  pub answers : List (Bytes × Result (Unit {0}))
  pub rows : List (Bytes × J)

abbrev pub document_invalid : Bytes → Error
document_invalid owner = record {
  code = "preferences_document_invalid";
  message = "A preference document must be a JSON object";
  detail = bytes owner ∷ [];
}

-- `m_entries.find`, and the assignment of an entry or a row.
unfoldable pub at : {A : Type 0} → Bytes → List (Bytes × A) → A → A
at owner [] d = d
at owner ((key, a) ∷ rest) d = if same key owner then a else at owner rest d

unfoldable pub put : {A : Type 0} → Bytes → A → List (Bytes × A) → List (Bytes × A)
put owner a [] = (owner, a) ∷ []
put owner a ((key, b) ∷ rest) =
    let further = put owner a rest in if same key owner then (key, a) ∷ rest else (key, b) ∷ further

unfoldable pub belongs : Bytes → Bytes → Bool
belongs owner plugin =
    same owner plugin
    || ltb (length plugin) (length owner)
      && starts_with plugin owner
      && get_or owner (length plugin) 0 == 58

-- `std::erase_if`, and the rows that the statement of `erase` leaves.
unfoldable pub without : {A : Type 0} → Bytes → List (Bytes × A) → List (Bytes × A)
without plugin [] = []
without plugin ((key, a) ∷ rest) =
    let further = without plugin rest in if belongs key plugin then further else (key, a) ∷ further

abbrev before_colon : Bytes × Option Bytes → Bytes
before_colon (before, behind) = before

abbrev member : Bytes → List Bytes → Bool
member name [] = false
member name (x ∷ xs) = same x name || member name xs

-- The loop of `plugins`, with those found so far.
unfoldable pub plugins_of : {A : Type 0} → List (Bytes × A) → List Bytes → List Bytes
plugins_of [] found = found
plugins_of ((owner, a) ∷ rest) found =
    let plugin = before_colon (cut 58 owner) in
    plugins_of rest (if member plugin found then found else found ++ plugin ∷ [])

module _ {J : Type 0} (is_object : J → Bool) (empty : J) where
  abbrev pub new_entry : Entry J
  new_entry = record { current = empty; committed = empty; revision = 0 }

  abbrev loaded : Bytes × J → Bytes × Entry J
  loaded (owner, document) =
      (owner, record { current = document; committed = document; revision = 0 })

  -- `load`: the rows that hold an object. The others no statement reads, and a write to their owner
  -- overwrites them, so `rows` leaves them out too.
  unfoldable pub load : List (Bytes × J) → List (Bytes × J)
  load [] = []
  load ((owner, document) ∷ rest) =
      let further = load rest in if is_object document then (owner, document) ∷ further else further

  -- The constructor, from the documents of the rows that hold an object.
  unfoldable pub opened : List (Bytes × J) → World J
  opened rows = record {
    entries = map loaded rows;
    queue = [];
    returned = [];
    answers = [];
    rows = rows;
  }

  abbrev pub entry_of : Bytes → World J → Entry J
  entry_of owner w = at owner w.entries new_entry

  unfoldable pub document : Bytes → World J → J
  document owner w = (entry_of owner w).current

  unfoldable pub plugins : World J → List Bytes
  plugins w = plugins_of w.entries []

  unfoldable pub write : Bytes → J → World J → World J
  write owner document w =
      if not (is_object document)
      then record w { answers = w.answers ++ (owner, failure (document_invalid owner)) ∷ [] }
      else let entry = entry_of owner w in
        let revision = (entry.revision + 1) % 2 ^ 64 in
        record w {
          entries =
              put owner
                (record { current = document; committed = entry.committed; revision = revision })
                w.entries;
          queue =
              w.queue ++ record { owner = owner; document = document; revision = revision } ∷ [];
        }

  abbrev pub row_after : Write J → Result (Unit {0}) → List (Bytes × J) → List (Bytes × J)
  row_after x (failure e) rows = rows
  row_after x (success u) rows = put x.owner x.document rows

  -- The worker runs `store` for the first write that waits, with the result that the database gives it.
  unfoldable pub work : Result (Unit {0}) → World J → World J
  work result w = elim w.queue [
    | [] ↦ w
    | x ∷ rest ↦ record w {
      queue = rest;
      returned = w.returned ++ (x, result) ∷ [];
      rows = row_after x result w.rows;
    }
  ]

  -- What the completion of `write` makes of the entry.
  abbrev pub settled : Write J → Result (Unit {0}) → Entry J → Entry J
  settled x (success u) entry = record entry { committed = x.document }
  settled x (failure e) entry =
      if x.revision == entry.revision then record entry { current = entry.committed } else entry

  -- The interface thread runs the first completion that waits for it.
  unfoldable pub deliver : World J → World J
  deliver w = elim w.returned [
    | [] ↦ w
    | (x, result) ∷ rest ↦ record w {
      returned = rest;
      entries = put x.owner (settled x result (entry_of x.owner w)) w.entries;
      answers = w.answers ++ (x.owner, result) ∷ [];
    }
  ]

  -- The worker runs `erase` for a plugin, and the database keeps it.
  unfoldable pub erase : Bytes → World J → World J
  erase plugin w = record w { rows = without plugin w.rows }

  unfoldable pub discard : Bytes → World J → World J
  discard plugin w = record w { entries = without plugin w.entries }
