-- ===== src/Persistence/Authorizer/Internal.antt =====
-- No table of SQLite itself is owned by a plugin.
use workpane.Prelude.{
  ℕ, ◌≡◌, refl, sym, ◌∙◌, Bool, true, false, ◌&&◌, ◌||◌, [], ◌∷◌, ◌++◌, Option, none, some, ◌==◌,
  arith, Bool-cases, inl, inr, ap,
}
use workpane.Prelude.Bytes.{Bytes, codes, same, same-eq, starts_with}
use workpane.Persistence.TablePrefix.{underscored, table_prefix, owned}
use workpane.Persistence.Authorizer.{named, schema_table, internal_table}

-- Two underscores in a row.
abbrev pub doubled : Bytes → Bool
doubled [] = false
doubled (x ∷ []) = false
doubled (x ∷ y ∷ text) = x == b'_' && y == b'_' || doubled (y ∷ text)

doubled_tail : (x : ℕ) (text : Bytes) → doubled text ≡ true → doubled (x ∷ text) ≡ true
doubled_tail x [] h = absurd (cc h)
doubled_tail x (y ∷ text) h = ground (arith, h)

prefix_doubled :
    (id name : Bytes)
    → starts_with (underscored id ++ b'_' ∷ b'_' ∷ []) name ≡ true
    → doubled name ≡ true
prefix_doubled [] [] h = absurd (cc h)
prefix_doubled [] (x ∷ []) h = ground (arith, h)
prefix_doubled [] (x ∷ y ∷ name) h = ground (arith, h)
prefix_doubled (z ∷ id) [] h = absurd (cc h)
prefix_doubled (z ∷ id) (x ∷ name) h =
    doubled_tail x name (prefix_doubled id name (ground (arith, h)))

named-single :
    (table : Option Bytes) (name : Bytes) (id : Bytes)
    → doubled name ≡ false
    → owned table (table_prefix id) ≡ true
    → named table name ≡ false
unfolding named owned table_prefix
named-single none name id h g = refl
named-single (some table) name id h g = elim (Bool-cases (same table name)) [
  | inr e ↦ e
  | inl e ↦
      let p = prefix_doubled id table (ground (arith, g)) in
      absurd (cc (sym p ∙ ap doubled (same-eq table name e) ∙ h))
]

pub schema_table-owned :
    (table : Option Bytes) (id : Bytes)
    → owned table (table_prefix id) ≡ true
    → schema_table table ≡ false
unfolding schema_table
schema_table-owned table id h =
    rw
      (
        named-single table (codes "sqlite_master") id refl h,
        named-single table (codes "sqlite_schema") id refl h,
        named-single table (codes "sqlite_temp_master") id refl h,
        named-single table (codes "sqlite_temp_schema") id refl h,
      )
      refl

pub internal_table-owned :
    (table : Option Bytes) (id : Bytes)
    → owned table (table_prefix id) ≡ true
    → internal_table table ≡ false
unfolding internal_table
internal_table-owned table id h =
    rw
      (
        schema_table-owned table id h,
        named-single table (codes "sqlite_sequence") id refl h,
        named-single table (codes "pragma_quick_check") id refl h,
      )
      refl

pub sequence-owned :
    (table : Option Bytes) (id : Bytes)
    → owned table (table_prefix id) ≡ true
    → named table (codes "sqlite_sequence") ≡ false
sequence-owned table id h = named-single table (codes "sqlite_sequence") id refl h
