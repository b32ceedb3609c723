-- ===== src/Persistence/Transactions.antt =====
-- `PluginDatabase::run`, `rollback` and `transaction` of src/persistence/PluginDatabase.cpp. The connection
-- is SQLite's: `Database` has what is called of it, on a state that it keeps.
pub mod Atomic
pub mod Examples
use Prim.Native.String.{String}
use workpane.Prelude.{ℕ, Bool, true, false, List, [], ◌∷◌, ◌++◌, if◌then◌else◌}
use workpane.Prelude.Int.{ℤ}
use workpane.Prelude.Bytes.{Bytes}
use workpane.Result.{Error, Result, success, failure}
use workpane.Persistence.Authorizer.{Purpose, statement, Call, answer_last, authorizer_of}

-- src/persistence/Statement.h.
pub record Statement (V : Type 0) : Type 0 where
  pub sql : Bytes
  pub bindings : List V

-- src/persistence/Execution.h.
pub record Execution : Type 0 where
  pub changes : ℤ
  pub last_insert_row_id : ℤ

pub record Database (D V : Type 0) : Type 0 where
  pub execute_script : String → D → D × Result (Unit {0})
  -- `Database::run` while a callback of `sqlite3_set_authorizer` is set: what it answers last to the calls so
  -- far.
  pub run : (List Call → Bool) → Statement V → D → D × Result Execution
  -- The steady clock.
  pub now : D → ℕ
  -- `sqlite3_get_autocommit(…) != 0`.
  pub autocommit : D → Bool

abbrev pub error_of : Result (Unit {0}) → Error → Error
error_of (success u) e = e
error_of (failure other) e = other

module _ {D V : Type 0} (db : Database D V) where
  -- `PluginDatabase::run`, or `change` for the purpose of a migration.
  unfoldable pub run_as : Bytes → Purpose → Statement V → D → D × Result Execution
  run_as id purpose s d = db.run (answer_last (authorizer_of id purpose (db.now d))) s d

  -- The state, and the error that the caller learns.
  unfoldable pub rollback : D → Error → D × Error
  rollback d e =
      let rolled_back = db.execute_script "ROLLBACK;" d in
      if db.autocommit d then (d, e) else (rolled_back.0, error_of rolled_back.1 e)

  abbrev pub failed : {A : Type 0} → D × Error → D × Result A
  failed (d, e) = (d, failure e)

  -- The loop over the statements that are left.
  unfoldable pub run_all :
      Bytes → List (Statement V) → D → List Execution → D × Result (List Execution)
  run_all id [] d executions = (d, success executions)
  run_all id (s ∷ statements) d executions =
      let executed = run_as id statement s d in
      elim executed.1 [
        | failure e ↦ failed (rollback executed.0 e)
        | success x ↦ run_all id statements executed.0 (executions ++ x ∷ [])
      ]

  abbrev pub commit : D → List Execution → D × Result (List Execution)
  commit d executions =
      let committed = db.execute_script "COMMIT;" d in
      elim committed.1 [
        | failure e ↦ failed (rollback committed.0 e)
        | success u ↦ (committed.0, success executions)
      ]

  unfoldable pub transaction : Bytes → List (Statement V) → D → D × Result (List Execution)
  transaction id statements d =
      let begun = db.execute_script "BEGIN IMMEDIATE;" d in
      elim begun.1 [
        | failure e ↦ (begun.0, failure e)
        | success u ↦
            let executed = run_all id statements begun.0 [] in
            elim executed.1 [
              | failure e ↦ (executed.0, failure e)
              | success executions ↦ commit executed.0 executions
            ]
      ]
