-- ===== src/Persistence/Migrations/Whole.antt =====
-- A plugin's schema moves by whole migrations.
use workpane.Prelude.{ℕ, suc, ◌+◌, ◌≡◌, true, List, ◌∷◌, length, drop}
use workpane.Prelude.Bytes.{Bytes}
use workpane.Result.{Result, success, failure}
use workpane.Persistence.Transactions.{Database}
use workpane.Persistence.Transactions.Atomic.{IsTransactional, IsEnded}
use workpane.Persistence.Migrations.{Queries}
use workpane.Persistence.Migrations.Verifying.{IsVerified}
use workpane.Persistence.Migrations.Rounds.{IsQueried, IsApplied}

module _ {D V C : Type 0} (db : Database D V) (q : Queries D) (stored worked : D → C)
    (laws : IsTransactional db stored worked) (queried : IsQueried db q stored) (id : Bytes) where
  -- Migrations that follow a version, applied one after the other up to another version.
  pub data Reached : ℕ → List (List Bytes) → ℕ → C → C → Type 0 where
    there : {version : ℕ} {rest : List (List Bytes)} {c : C} → Reached version rest version c c
    applied :
        {version n : ℕ} {statements : List Bytes} {rest : List (List Bytes)} {c c₁ c' : C}
        → IsApplied db q stored worked laws queried id (suc version) statements c c₁
        → Reached (suc version) rest n c₁ c'
        → Reached version (statements ∷ rest) n c c'

  -- The loop: a failure has stored some whole migrations and closed the transaction, and a success all.
  abbrev IsLoop : ℕ → List (List Bytes) → D → D × Result (Unit {0}) → Type 0
  IsLoop version rest d (d', failure e) =
      ((n : ℕ) × Reached version rest n (stored d) (stored d'))
      × IsEnded db stored worked laws id d' e
  IsLoop version rest d (d', success u) =
      Reached version rest (version + length rest) (stored d) (stored d')
      × (db.autocommit d' ≡ true)

  -- What a migration of a plugin whose stored version is `current` answers and leaves.
  abbrev pub IsMigrated : List (List Bytes) → ℕ → D → D × Result ℕ → Type 0
  IsMigrated migrations current d (d', failure e) =
      ((n : ℕ) × Reached current (drop current migrations) n (stored d) (stored d'))
      × IsEnded db stored worked laws id d' e
  IsMigrated migrations current d (d', success version) =
      (version ≡ length migrations)
      × Reached current (drop current migrations) (length migrations) (stored d) (stored d')
      × (db.autocommit d' ≡ true)
      × ((checked : D) × (stored checked ≡ stored d')
          × IsVerified db q stored worked laws queried id migrations checked)
