-- ===== src/Persistence/Migrations.antt =====
-- `PluginDatabase::migrate` of src/persistence/PluginDatabase.cpp with what it calls: `ownParents`, `verify`
-- and `schema`. The queries of SQLite's tables and of `core_plugin_schemas` are a parameter beside the
-- connection. A stored version is one that `migrate` has recorded, hence at least one.
pub mod Rounds
pub mod Compared
pub mod Verifying
pub mod Whole
pub mod Examples
use workpane.Prelude.{
  ℕ, suc, ◌+◌, Bool, true, false, not, ◌&&◌, List, [], ◌∷◌, Option, none, some, ltb, ◌==◌, between,
  if◌then◌else◌, length, drop,
}
use workpane.Prelude.Bytes.{Bytes, same, starts_with}
use workpane.Result.{Error, Result, success, failure, text, bytes}
use workpane.Persistence.TablePrefix.{table_prefix}
use workpane.Persistence.SchemaText.{normalized}
use workpane.Persistence.Authorizer.{Purpose, migration}
use workpane.Persistence.Transactions.{Statement, Execution, Database, rollback, run_as, failed}

pub record Queries (D : Type 0) : Type 0 where
  -- The row of `core_plugin_schemas` of a plugin.
  pub version_of : Bytes → D → D × Result (Option ℕ)
  -- `INSERT INTO core_plugin_schemas …`.
  pub record_version : Bytes → ℕ → D → D × Result Execution
  -- The tables under a prefix, each with a table that one of its foreign keys refers to.
  pub foreign_keys : Bytes → D → D × Result (List (Bytes × Bytes))
  -- The names under a prefix with their definitions.
  pub definitions : Bytes → D → D × Result (List (Bytes × Bytes))
  -- `Database::open(":memory:")`.
  pub open_scratch : Result D

abbrev pub foreign_parent : Bytes → Bytes → Error
foreign_parent owner parent = record {
  code = "database_foreign_key_foreign";
  message = "A table of a plugin refers to a table of another owner";
  detail = bytes owner ∷ text " -> " ∷ bytes parent ∷ [];
}

abbrev pub schema_newer : Bytes → Error
schema_newer id = record {
  code = "database_schema_newer";
  message = "A plugin schema was written by a newer version of the plugin";
  detail = bytes id ∷ [];
}

abbrev pub schema_differs : Bytes → Error
schema_differs name = record {
  code = "database_schema_mismatch";
  message = "The stored tables of the plugin differ from the ones its migrations create";
  detail = bytes name ∷ [];
}

abbrev pub schema_surplus : Bytes → Error
schema_surplus name = record {
  code = "database_schema_mismatch";
  message = "The plugin keeps a table, an index, a view or a trigger its migrations do not create";
  detail = bytes name ∷ [];
}

-- `std::tolower` of the C locale.
abbrev pub lower : ℕ → ℕ
lower x = if between 65 90 x then x + 32 else x

abbrev pub lowered : Bytes → Bytes
lowered [] = []
lowered (x ∷ rest) = lower x ∷ lowered rest

-- The loop of `ownParents`.
unfoldable pub own_rows : Bytes → List (Bytes × Bytes) → Result (Unit {0})
own_rows prefix [] = success tt
own_rows prefix ((owner, parent) ∷ rest) =
    if starts_with prefix (lowered parent)
    then own_rows prefix rest
    else failure (foreign_parent owner parent)

-- The order of `std::map<std::string, …>`.
unfoldable pub precedes : Bytes → Bytes → Bool
precedes [] [] = false
precedes [] (y ∷ ys) = true
precedes (x ∷ xs) [] = false
precedes (x ∷ xs) (y ∷ ys) = if x == y then precedes xs ys else ltb x y

unfoldable pub find : Bytes → List (Bytes × Bytes) → Option Bytes
find name [] = none
find name ((key, value) ∷ rest) = if same key name then some value else find name rest

abbrev pub is_found : Option Bytes → Bool
is_found none = false
is_found (some value) = true

-- A new entry of the map, before the first that it precedes.
unfoldable pub insert : Bytes → Bytes → List (Bytes × Bytes) → List (Bytes × Bytes)
insert name sql [] = (name, sql) ∷ []
insert name sql ((key, value) ∷ rest) =
    let further = insert name sql rest in
    if precedes name key then (name, sql) ∷ (key, value) ∷ rest else (key, value) ∷ further

-- `definitions.emplace`, which keeps what is there.
unfoldable pub emplace : Bytes → Bytes → List (Bytes × Bytes) → List (Bytes × Bytes)
emplace name sql found = if is_found (find name found) then found else insert name sql found

-- The loop of `schema`.
unfoldable pub collect : List (Bytes × Bytes) → List (Bytes × Bytes) → List (Bytes × Bytes)
collect [] found = found
collect ((name, sql) ∷ rows) found = collect rows (emplace name (normalized sql) found)

abbrev pub agrees : Bytes → Option Bytes → Bool
agrees definition none = false
agrees definition (some value) = same value definition

-- The two loops of `verify`.
unfoldable pub all_stored : List (Bytes × Bytes) → List (Bytes × Bytes) → Result (Unit {0})
all_stored stored [] = success tt
all_stored stored ((name, definition) ∷ expected) =
    if agrees definition (find name stored)
    then all_stored stored expected
    else failure (schema_differs name)

unfoldable pub all_expected : List (Bytes × Bytes) → List (Bytes × Bytes) → Result (Unit {0})
all_expected expected [] = success tt
all_expected expected ((name, definition) ∷ stored) =
    if is_found (find name expected)
    then all_expected expected stored
    else failure (schema_surplus name)

module _ {D V : Type 0} (db : Database D V) (q : Queries D) where
  abbrev pub passed_on : {A B : Type 0} → (A → Result B) → D × Result A → D × Result B
  passed_on f (d, failure e) = (d, failure e)
  passed_on f (d, success a) = (d, f a)

  unfoldable pub own_parents : Bytes → D → D × Result (Unit {0})
  own_parents id d = passed_on (own_rows (table_prefix id)) (q.foreign_keys (table_prefix id) d)

  unfoldable pub schema : Bytes → D → D × Result (List (Bytes × Bytes))
  schema id d = passed_on (λ rows. success (collect rows [])) (q.definitions (table_prefix id) d)

  unfoldable pub change : Bytes → Bytes → D → D × Result Execution
  change id sql d = run_as db id migration (record { sql = sql; bindings = [] }) d

  abbrev then_do : {A B : Type 0} → (A → D → D × Result B) → D × Result A → D × Result B
  then_do f (d, failure e) = (d, failure e)
  then_do f (d, success a) = f a d

  -- The statements of one migration, in turn.
  unfoldable pub change_all : Bytes → List Bytes → D → D × Result (Unit {0})
  change_all id [] d = (d, success tt)
  change_all id (sql ∷ rest) d = then_do (λ x. change_all id rest) (change id sql d)

  unfoldable pub change_every : Bytes → List (List Bytes) → D → D × Result (Unit {0})
  change_every id [] d = (d, success tt)
  change_every id (statements ∷ rest) d =
      then_do (λ x. change_every id rest) (change_all id statements d)

  abbrev pub both_ways : List (Bytes × Bytes) → List (Bytes × Bytes) → Result (Unit {0})
  both_ways expected stored = elim (all_stored stored expected) [
    | failure e ↦ failure e
    | success u ↦ all_expected expected stored
  ]

  abbrev pub compared :
      Result (List (Bytes × Bytes)) → Result (List (Bytes × Bytes)) → Result (Unit {0})
  compared (failure e) stored = failure e
  compared (success expected) (failure e) = failure e
  compared (success expected) (success stored) = both_ways expected stored

  abbrev pub verified : Bytes → D → D × Result (Unit {0}) → D × Result (Unit {0})
  verified id d (scratch, failure e) = (d, failure e)
  verified id d (scratch, success u) =
      let (d', stored) = schema id d in (d', compared (schema id scratch).1 stored)

  unfoldable pub verify : Bytes → List (List Bytes) → D → D × Result (Unit {0})
  verify id migrations d = elim q.open_scratch [
    | failure e ↦ (d, failure e)
    | success scratch ↦ verified id d (change_every id migrations scratch)
  ]

  -- A failure inside the transaction of a migration rolls it back.
  abbrev pub undone : {A : Type 0} → D × Result A → D × Result A
  undone (d, failure e) = failed db (rollback db d e)
  undone (d, success a) = (d, success a)

  -- What follows `BEGIN IMMEDIATE;` in one round of the loop.
  unfoldable pub apply_one : Bytes → ℕ → List Bytes → D → D × Result (Unit {0})
  apply_one id version statements d =
      then_do
        (λ x. λ d₁.
          then_do
            (λ y. λ d₂. then_do (λ z. db.execute_script "COMMIT;") (q.record_version id version d₂))
            (own_parents id d₁))
        (change_all id statements d)

  -- The loop over the migrations that are left, behind a version.
  unfoldable pub migrate_from : Bytes → ℕ → List (List Bytes) → D → D × Result (Unit {0})
  migrate_from id version [] d = (d, success tt)
  migrate_from id version (statements ∷ rest) d =
      let begun = db.execute_script "BEGIN IMMEDIATE;" d in
      elim begun.1 [
        | failure e ↦ (begun.0, failure e)
        | success u ↦
            then_do (λ x. migrate_from id (suc version) rest)
              (undone (apply_one id (suc version) statements begun.0))
      ]

  abbrev pub version_or_zero : Option ℕ → ℕ
  version_or_zero none = 0
  version_or_zero (some version) = version

  unfoldable pub migrate_behind : Bytes → List (List Bytes) → Option ℕ → D → D × Result ℕ
  migrate_behind id migrations stored d =
      let current = version_or_zero stored in
      if ltb (length migrations) current
      then (d, failure (schema_newer id))
      else then_do
          (λ x. λ d₁. passed_on (λ u. success (length migrations)) (verify id migrations d₁))
          (migrate_from id current (drop current migrations) d)

  unfoldable pub migrate : Bytes → List (List Bytes) → D → D × Result ℕ
  migrate id migrations d = then_do (migrate_behind id migrations) (q.version_of id d)
