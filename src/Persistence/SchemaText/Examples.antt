-- ===== src/Persistence/SchemaText/Examples.antt =====
-- A definition over two lines.
use workpane.Prelude.{◌≡◌, refl, ◌∷◌, ◌++◌}
use workpane.Prelude.Bytes.{Bytes, codes}
use workpane.Persistence.SchemaText.{normalize, normalized}

abbrev definition : Bytes
definition =
    codes "CREATE  TABLE "
    ++ 34 ∷ codes "note__pages"
    ++ 34 ∷ codes " ("
    ++ 10 ∷ codes "  id INTEGER , title TEXT )"

normalized-definition :
    normalized definition ≡ codes "CREATE TABLE note__pages(id INTEGER,title TEXT)"
unfolding normalized normalize
normalized-definition = refl
