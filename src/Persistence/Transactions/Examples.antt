-- ===== src/Persistence/Transactions/Examples.antt =====
-- A database that keeps a list of numbers, where a statement adds its values and fails without any.
use Prim.Native.String.{String}
use package.text.Mathlib.Text.{◌==◌ as str_eq}
use workpane.Prelude.{ℕ, ◌≡◌, ◌∙◌, refl, Bool, true, false, List, [], ◌∷◌, ◌++◌, if◌then◌else◌}
use workpane.Prelude.Int.{pos}
use workpane.Prelude.Bytes.{codes}
use workpane.Result.{Error, Result, success, failure}
use workpane.Persistence.Transactions.{
  Statement, Execution, Database, rollback, run_all, run_as, transaction,
}
use workpane.Persistence.Transactions.Atomic.{IsTransactional, IsAtomic, transaction-IsAtomic}

record Numbers : Type 0 where
  kept : List ℕ
  work : List ℕ
  idle : Bool

abbrev nothing_given : Error
nothing_given = record {
  code = "database_statement_failed";
  message = "A database statement failed";
  detail = [];
}

abbrev script : String → Numbers → Numbers × Result (Unit {0})
script sql d =
    if str_eq sql "BEGIN IMMEDIATE;"
    then (record d { work = d.kept; idle = false }, success tt)
    else if str_eq sql "COMMIT;"
    then (record d { kept = d.work; idle = true }, success tt)
    else (record d { work = d.kept; idle = true }, success tt)

abbrev add : List ℕ → Numbers → Numbers × Result Execution
add [] d = (d, failure nothing_given)
add (n ∷ values) d = (
  record d { work = d.work ++ n ∷ values },
  success (record { changes = pos 1; last_insert_row_id = pos 0 }),
)

abbrev numbers : Database Numbers ℕ
numbers = record {
  execute_script = script;
  run = λ guard s d. add s.bindings d;
  now = λ d. 0;
  autocommit = λ d. d.idle;
}

add-kept : (values : List ℕ) (d : Numbers) → (add values d).0.kept ≡ d.kept
add-kept [] d = refl
add-kept (n ∷ values) d = refl

add-idle : (values : List ℕ) (d : Numbers) → (add values d).0.idle ≡ d.idle
add-idle [] d = refl
add-idle (n ∷ values) d = refl

numbers-IsTransactional : IsTransactional numbers (λ d. d.kept) (λ d. d.work)
numbers-IsTransactional = record {
  begin_keeps = λ d a. refl;
  begin_opens = λ d a p. (refl, refl);
  begin_fails = λ d e a p. cc p;
  run_keeps = λ guard s d n a. add-kept s.bindings d;
  run_stays = λ guard s d x n a p. add-idle s.bindings d ∙ a;
  rollback_ends = λ d a p. refl;
  rollback_keeps = λ d a. refl;
  commit_stores = λ d a p. (refl, refl);
  commit_keeps = λ d e a p. cc p;
}

abbrev two : List (Statement ℕ)
two =
    record { sql = codes "INSERT"; bindings = 3 ∷ [] }
    ∷ record { sql = codes "INSERT"; bindings = 4 ∷ [] }
    ∷ []

abbrev one_bad : List (Statement ℕ)
one_bad =
    record { sql = codes "INSERT"; bindings = 3 ∷ [] }
    ∷ record { sql = codes "INSERT"; bindings = [] }
    ∷ []

abbrev start : Numbers
start = record { kept = 1 ∷ []; work = 1 ∷ []; idle = true }

both_stored : (transaction numbers (codes "notes") two start).0.kept ≡ 1 ∷ 3 ∷ 4 ∷ []
unfolding transaction run_all run_as
both_stored = refl

none_stored : (transaction numbers (codes "notes") one_bad start).0.kept ≡ 1 ∷ []
unfolding transaction run_all run_as rollback
none_stored = refl

transaction-IsAtomic_example :
    IsAtomic numbers
      (λ d. d.kept)
      (λ d. d.work)
      numbers-IsTransactional
      (codes "notes")
      two
      start
      (transaction numbers (codes "notes") two start)
transaction-IsAtomic_example =
    transaction-IsAtomic numbers (λ d. d.kept) (λ d. d.work) numbers-IsTransactional (codes "notes")
      two start refl
