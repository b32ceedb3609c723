-- ===== src/Persistence/Authorizer/Statements.antt =====
-- What a statement may do, and what changes while a migration runs.
use workpane.Prelude.{
  ℕ, ◌≡◌, refl, sym, ◌∙◌, ap, ap₂, Bool, true, false, not, ◌&&◌, ◌||◌, List, [], ◌∷◌, Option,
  if◌then◌else◌, subst, arith,
}
use workpane.Prelude.Bytes.{Bytes, codes}
use workpane.Persistence.TablePrefix.{table_prefix, owned}
use workpane.Persistence.Authorizer.{
  statement, Action, select, recursive, function, read, insert, update, delete, create_table,
  drop_table, create_index, drop_index, create_view, drop_view, create_trigger, drop_trigger,
  alter_table, reindex, pragma, another, PluginAuthorizer, authorizer, authorizer_of, named,
  schema_table, internal_table, internal_read, change_schema, writes, authorize, Call,
  authorize_all,
}

-- The actions that change the schema.
abbrev pub changes : Action → Bool
changes create_table = true
changes drop_table = true
changes create_index = true
changes drop_index = true
changes create_view = true
changes drop_view = true
changes create_trigger = true
changes drop_trigger = true
changes alter_table = true
changes action = false

-- What a statement of a plugin may do: select, call functions that do not rename tables, read and write
-- the tables with its prefix, and have SQLite write its schema tables.
unfoldable pub permits : Bytes → Action → Option Bytes → Option Bytes → Bool
permits prefix select first second = true
permits prefix recursive first second = true
permits prefix function first second = not (named second (codes "sqlite_rename_table"))
permits prefix read first second = owned first prefix
permits prefix insert first second = owned first prefix || schema_table first
permits prefix update first second = owned first prefix || schema_table first
permits prefix delete first second = owned first prefix || schema_table first
permits prefix action first second = false

-- An authorizer that is not of a migration, with the schema as it was.
record IsPlain (own : Bytes) (state : PluginAuthorizer) : Type 0 where
  prefix : state.prefix ≡ own
  migrating : state.migrating ≡ false
  changing_schema : state.changing_schema ≡ false

module _ (own : Bytes) where
  abbrev IsAnswered : PluginAuthorizer → Action → Option Bytes → Option Bytes → Type 0
  IsAnswered state action first second =
      IsPlain own (authorize state action first second).0
      × ((authorize state action first second).1 ≡ permits own action first second)

  unchanged :
      (state : PluginAuthorizer) (permitted : Bool)
      → state.migrating ≡ false
      → change_schema state permitted ≡ (state, false)
  unfolding change_schema
  unchanged state false h = refl
  unchanged state true h =
      ap
        (λ (m : Bool).
          if◌then◌else◌ {A = PluginAuthorizer × Bool} (not m) (state, false)
            (record state { changing_schema = true }, true))
        h

  refused :
      (state : PluginAuthorizer) (permitted : Bool)
      → IsPlain own state
      → IsPlain own (change_schema state permitted).0 × ((change_schema state permitted).1 ≡ false)
  refused state permitted r =
      subst (λ (c : PluginAuthorizer × Bool). IsPlain own c.0 × (c.1 ≡ false))
        (sym (unchanged state permitted r.migrating)) (r, refl)

  or_nothing : (p q t : Bool) → (p || q || false && t) ≡ (p || q)
  or_nothing p q t = ground arith

  plain_write :
      (state : PluginAuthorizer) (table : Option Bytes)
      → IsPlain own state
      → writes state table ≡ (owned table own || schema_table table)
  plain_write state table r =
      ap₂
        (λ (p : Bytes) (c : Bool). owned table p || schema_table table || c && internal_table table)
        r.prefix r.changing_schema
      ∙ or_nothing (owned table own) (schema_table table) (internal_table table)

  no_internal_read :
      (state : PluginAuthorizer) (table : Option Bytes)
      → state.changing_schema ≡ false
      → internal_read state table ≡ false
  unfolding internal_read
  no_internal_read state table h = rw h refl

  or_false : (p : Bool) → (p || false) ≡ p
  or_false p = ground arith

  plain_read :
      (state : PluginAuthorizer) (table : Option Bytes)
      → IsPlain own state
      → (owned table state.prefix || internal_read state table) ≡ owned table own
  plain_read state table r =
      ap₂ (λ (p : Bytes) (c : Bool). owned table p || c) r.prefix
        (no_internal_read state table r.changing_schema)
      ∙ or_false (owned table own)

  authorize-permits :
      (state : PluginAuthorizer) (action : Action) (first second : Option Bytes)
      → IsPlain own state
      → IsAnswered state action first second
  unfolding authorize permits
  authorize-permits state select first second r = (
    record { prefix = r.prefix; migrating = r.migrating; changing_schema = r.changing_schema },
    refl,
  )
  authorize-permits state recursive first second r = (r, refl)
  authorize-permits state function first second r = (r, refl)
  authorize-permits state read first second r = (r, plain_read state first r)
  authorize-permits state insert first second r = (r, plain_write state first r)
  authorize-permits state update first second r = (r, plain_write state first r)
  authorize-permits state delete first second r = (r, plain_write state first r)
  authorize-permits state create_table first second r = refused state _ r
  authorize-permits state drop_table first second r = refused state _ r
  authorize-permits state create_index first second r = refused state _ r
  authorize-permits state drop_index first second r = refused state _ r
  authorize-permits state create_view first second r = refused state _ r
  authorize-permits state drop_view first second r = refused state _ r
  authorize-permits state create_trigger first second r = refused state _ r
  authorize-permits state drop_trigger first second r = refused state _ r
  authorize-permits state alter_table first second r =
      refused (record state { altering = true }) _
        (record { prefix = r.prefix; migrating = r.migrating; changing_schema = r.changing_schema })
  authorize-permits state reindex first second r = (r, rw r.changing_schema refl)
  authorize-permits state pragma first second r = (r, rw r.changing_schema refl)
  authorize-permits state another first second r = (r, refl)

  authorize_all-IsPlain :
      (state : PluginAuthorizer) (calls : List Call)
      → IsPlain own state
      → IsPlain own (authorize_all state calls)
  unfolding authorize_all
  authorize_all-IsPlain state [] r = r
  authorize_all-IsPlain state (c ∷ calls) r =
      authorize_all-IsPlain (authorize state c.action c.first c.second).0 calls
        (authorize-permits state c.action c.first c.second r).0

-- What a statement that is not of a migration is allowed depends on nothing that SQLite has asked before:
-- it may select, call functions but the one that renames tables, read and write the tables with the
-- prefix of its plugin and let SQLite write its schema tables, and everything else is denied.
pub authorize_all-permits :
    (id : Bytes) (now : ℕ) (calls : List Call) (action : Action) (first second : Option Bytes)
    → (authorize (authorize_all (authorizer_of id statement now) calls) action first second).1
      ≡ permits (table_prefix id) action first second
unfolding authorizer_of authorizer
authorize_all-permits id now calls action first second =
    let state = authorizer_of id statement now in
    (authorize-permits (table_prefix id) (authorize_all state calls) action first second (
      authorize_all-IsPlain (table_prefix id) state calls
        (record { prefix = refl; migrating = refl; changing_schema = refl }))).1
