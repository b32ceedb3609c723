-- ===== src/Persistence/Migrations/Examples.antt =====
-- A database that keeps a version and the statements that have run, where an empty statement fails.
use Prim.Native.String.{String}
use package.text.Mathlib.Text.{◌==◌ as str_eq}
use workpane.Prelude.{
  ℕ, ◌≡◌, refl, Bool, true, false, List, [], ◌∷◌, ◌++◌, Option, none, some, if◌then◌else◌,
}
use workpane.Prelude.Int.{pos}
use workpane.Prelude.Bytes.{Bytes, codes}
use workpane.Result.{Error, Result, success, failure}
use workpane.Persistence.SchemaText.{normalize, normalized}
use workpane.Persistence.Transactions.{Execution, Database, rollback, run_as}
use workpane.Persistence.Migrations.{
  Queries, own_rows, own_parents, schema, change, change_all, change_every, verify, apply_one,
  migrate_from, migrate_behind, migrate, collect, emplace, find, insert, precedes, foreign_parent,
  all_stored, all_expected,
}

record Kept : Type 0 where
  version : Option ℕ
  changes : List Bytes

record Sample : Type 0 where
  kept : Kept
  work : Kept
  idle : Bool

abbrev empty_statement : Error
empty_statement = record {
  code = "database_statement_failed";
  message = "A database statement failed";
  detail = [];
}

abbrev script : String → Sample → Sample × Result (Unit {0})
script sql d =
    if str_eq sql "BEGIN IMMEDIATE;"
    then (record d { work = d.kept; idle = false }, success tt)
    else if str_eq sql "COMMIT;"
    then (record d { kept = d.work; idle = true }, success tt)
    else (record d { work = d.kept; idle = true }, success tt)

abbrev done : Execution
done = record { changes = pos 1; last_insert_row_id = pos 0 }

abbrev run_sql : Bytes → Sample → Sample × Result Execution
run_sql [] d = (d, failure empty_statement)
run_sql (x ∷ sql) d = (
  record d {
    work = record { version = d.work.version; changes = d.work.changes ++ (x ∷ sql) ∷ [] };
  },
  success done,
)

abbrev sample : Database Sample ℕ
sample = record {
  execute_script = script;
  run = λ guard s d. run_sql s.sql d;
  now = λ d. 0;
  autocommit = λ d. d.idle;
}

abbrev queries : Queries Sample
queries = record {
  version_of = λ id d. (d, success d.kept.version);
  record_version = λ id version d. (
    record d { work = record { version = some version; changes = d.work.changes } },
    success done,
  );
  foreign_keys = λ prefix d. (d, success []);
  definitions = λ prefix d. (d, success []);
  open_scratch = success (record {
    kept = record { version = none; changes = [] };
    work = record { version = none; changes = [] };
    idle = true;
  });
}

abbrev start : Sample
start = record {
  kept = record { version = some 1; changes = codes "A" ∷ [] };
  work = record { version = some 1; changes = codes "A" ∷ [] };
  idle = true;
}

abbrev two_more : List (List Bytes)
two_more = (codes "A" ∷ []) ∷ (codes "B" ∷ codes "C" ∷ []) ∷ (codes "D" ∷ []) ∷ []

abbrev last_fails : List (List Bytes)
last_fails = (codes "A" ∷ []) ∷ (codes "B" ∷ []) ∷ (codes "D" ∷ codes "" ∷ []) ∷ []

all_migrated :
    (migrate sample queries (codes "notes") two_more start).0.kept
    ≡ record { version = some 3; changes = codes "A" ∷ codes "B" ∷ codes "C" ∷ codes "D" ∷ [] }
unfolding migrate migrate_behind migrate_from apply_one change_all change run_as own_parents
    own_rows verify change_every schema collect all_stored all_expected
all_migrated = refl

stopped_between :
    (migrate sample queries (codes "notes") last_fails start).0.kept
    ≡ record { version = some 2; changes = codes "A" ∷ codes "B" ∷ [] }
unfolding migrate migrate_behind migrate_from apply_one change_all change run_as own_parents
    own_rows verify change_every schema collect rollback
stopped_between = refl

foreign_found :
    own_rows
      (codes "notes__")
      ((codes "notes__a", codes "Notes__b") ∷ (codes "notes__a", codes "tasks__b") ∷ [])
    ≡ failure (foreign_parent (codes "notes__a") (codes "tasks__b"))
unfolding own_rows
foreign_found = refl

collected_in_order :
    collect ((codes "b", codes "X") ∷ (codes "a", codes "Y") ∷ (codes "b", codes "Z") ∷ []) []
    ≡ (codes "a", codes "Y") ∷ (codes "b", codes "X") ∷ []
unfolding collect emplace find insert precedes normalized normalize
collected_in_order = refl
