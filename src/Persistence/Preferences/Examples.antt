-- ===== src/Persistence/Preferences/Examples.antt =====
-- A store of numbers as documents, where zero is no object and 1 the empty one.
use workpane.Prelude.{ℕ, ◌≡◌, refl, sym, subst, Bool, not, List, [], ◌∷◌, ◌==◌, true, arith}
use workpane.Prelude.Bytes.{Bytes, codes}
use workpane.Result.{Error, success, failure}
use workpane.Persistence.Preferences.{
  World, at, put, opened, document, write, work, deliver, erase, discard, load, belongs, plugins,
  plugins_of,
}
use workpane.Persistence.Preferences.Steps.{
  outstanding, writes_of, latest, writing, working, delivering, erasing, discarding, Run, none_yet,
  step_to,
}
use workpane.Persistence.Preferences.Reading.{document-latest}

abbrev sound : ℕ → Bool
sound n = not (n == 0)

abbrev rows : List (Bytes × ℕ)
rows = (codes "notes", 5) ∷ (codes "notes:tabs", 6) ∷ (codes "tasks", 7) ∷ []

abbrev disk_full : Error
disk_full = record {
  code = "database_statement_failed";
  message = "A database statement failed";
  detail = [];
}

-- Two writes, of which the first is stored and the second fails.
abbrev first_written : World ℕ
first_written = write sound 1 (codes "notes") 8 (opened sound 1 rows)

abbrev both_written : World ℕ
both_written = write sound 1 (codes "notes") 9 first_written

abbrev first_stored : World ℕ
first_stored = work sound 1 (success tt) both_written

abbrev second_failed : World ℕ
second_failed = work sound 1 (failure disk_full) first_stored

abbrev first_back : World ℕ
first_back = deliver sound 1 second_failed

abbrev both_back : World ℕ
both_back = deliver sound 1 first_back

read_latest : document sound 1 (codes "notes") first_back ≡ 9
unfolding document write work deliver opened at put
read_latest = refl

read_rolled_back : document sound 1 (codes "notes") both_back ≡ 8
unfolding document write work deliver opened at put
read_rolled_back = refl

further_belongs : belongs (codes "notes:tabs") (codes "notes") ≡ true
unfolding belongs
further_belongs = refl

plugins_once : plugins sound 1 (opened sound 1 rows) ≡ codes "notes" ∷ codes "tasks" ∷ []
unfolding plugins plugins_of opened
plugins_once = refl

abbrev others_erased : World ℕ
others_erased = erase sound 1 (codes "tasks") both_back

abbrev others_discarded : World ℕ
others_discarded = discard sound 1 (codes "tasks") others_erased

eight_steps : Run sound 1 (codes "notes") 8 (opened sound 1 rows) others_discarded
unfolding belongs
eight_steps =
    step_to
      (step_to
        (step_to
          (step_to
            (step_to
              (step_to
                (step_to (step_to none_yet (writing (codes "notes") 8)) (writing (codes "notes") 9))
                (working (success tt)))
              (working (failure disk_full)))
            delivering)
          delivering)
        (erasing (codes "tasks") refl))
      (discarding (codes "tasks") refl)

damaged_left_out : load sound 1 ((codes "broken", 0) ∷ rows) ≡ rows
unfolding load
damaged_left_out = refl

eight_loaded :
    Run sound 1
      (codes "notes")
      8
      (opened sound 1 (load sound 1 ((codes "broken", 0) ∷ rows)))
      others_discarded
eight_loaded =
    subst (λ l. Run sound 1 (codes "notes") 8 (opened sound 1 l) others_discarded)
      (sym damaged_left_out) eight_steps

document-latest_example :
    document sound 1 (codes "notes") others_discarded
    ≡ latest
        (at (codes "notes") others_discarded.rows 1)
        (writes_of (codes "notes") (outstanding others_discarded))
document-latest_example =
    document-latest sound 1 8 (codes "notes") ((codes "broken", 0) ∷ rows) others_discarded
      (omega arith) eight_loaded
