-- ===== src/Persistence/Authorizer/Examples.antt =====
-- Two plugins whose names begin alike.
use workpane.Prelude.{◌≡◌, refl, true, false, List, [], ◌∷◌, Option, none, some}
use workpane.Prelude.Bytes.{Bytes, codes}
use workpane.Scripting.Identifier.{valid}
use workpane.Persistence.TablePrefix.{table_prefix, owned}
use workpane.Persistence.Authorizer.{
  statement, migration, select, read, create_table, authorizer, authorizer_of, authorize,
  change_schema, Call, authorize_all,
}
use workpane.Persistence.Authorizer.Isolation.{authorize_all-foreign}
use workpane.Persistence.Authorizer.Statements.{permits, authorize_all-permits}

abbrev notes : Bytes
notes = codes "note"

abbrev other_notes : Bytes
other_notes = codes "note-taker"

abbrev other_table : Option Bytes
other_table = some (codes "note_taker__pages")

valid-notes : valid notes ≡ true
unfolding valid
valid-notes = refl

valid-other_notes : valid other_notes ≡ true
unfolding valid
valid-other_notes = refl

different : ¬ (notes ≡ other_notes)
different h = cc h

owned-other_table : owned other_table (table_prefix other_notes) ≡ true
unfolding owned table_prefix
owned-other_table = refl

abbrev creation : List Call
creation =
    record { action = create_table; first = some (codes "note__pages"); second = none }
    ∷ record { action = select; first = none; second = none }
    ∷ []

authorize_all-foreign_example :
    (authorize
      (authorize_all (authorizer_of notes migration 5) creation)
      read
      other_table
      (some (codes "title"))).1
    ≡ false
authorize_all-foreign_example =
    authorize_all-foreign notes other_notes migration 5 creation read other_table
      (some (codes "title")) valid-notes valid-other_notes different owned-other_table

-- The migration was allowed to create its own table.
creation_allowed :
    (authorize (authorizer_of notes migration 5) create_table (some (codes "note__pages")) none).1
    ≡ true
unfolding authorize authorizer_of authorizer table_prefix change_schema owned
creation_allowed = refl

authorize_all-permits_example :
    (authorize
      (authorize_all (authorizer_of notes statement 5) creation)
      read
      (some (codes "note__pages"))
      none).1
    ≡ permits (table_prefix notes) read (some (codes "note__pages")) none
authorize_all-permits_example =
    authorize_all-permits notes 5 creation read (some (codes "note__pages")) none
