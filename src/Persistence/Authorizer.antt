-- ===== src/Persistence/Authorizer.antt =====
-- `PluginAuthorizer` of src/persistence/PluginAuthorizer.cpp. SQLite calls `authorize` for what a statement
-- does; `Action` has the codes that its switch names, and one for every other code. The times of
-- `progress` are numbers of a steady clock. The names are those that SQLite hands over.
pub mod Internal
pub mod Foreign
pub mod Statements
pub mod Isolation
pub mod Examples
use workpane.Prelude.{
  ℕ, ◌+◌, Bool, true, false, not, ◌&&◌, ◌||◌, List, [], ◌∷◌, Option, none, some, ltb, if◌then◌else◌,
}
use workpane.Prelude.Bytes.{Bytes, codes, same, starts_with}
use workpane.Persistence.TablePrefix.{table_prefix, owned}

pub data Purpose : Type 0 where
  statement : Purpose
  migration : Purpose

pub data Action : Type 0 where
  select : Action
  recursive : Action
  function : Action
  read : Action
  insert : Action
  update : Action
  delete : Action
  create_table : Action
  drop_table : Action
  create_index : Action
  drop_index : Action
  create_view : Action
  drop_view : Action
  create_trigger : Action
  drop_trigger : Action
  alter_table : Action
  reindex : Action
  pragma : Action
  another : Action

pub record PluginAuthorizer : Type 0 where
  pub prefix : Bytes
  pub migrating : Bool
  pub deadline : ℕ
  pub changing_schema : Bool
  pub altering : Bool
  pub querying : Bool

abbrev pub migrates : Purpose → Bool
migrates statement = false
migrates migration = true

-- In seconds.
abbrev pub bound : Purpose → ℕ
bound statement = 10
bound migration = 120

unfoldable pub authorizer : Bytes → Purpose → ℕ → PluginAuthorizer
authorizer prefix purpose now = record {
  prefix = prefix;
  migrating = migrates purpose;
  deadline = now + bound purpose;
  changing_schema = false;
  altering = false;
  querying = false;
}

-- The authorizer of `query` and `run`, or of `change`.
unfoldable pub authorizer_of : Bytes → Purpose → ℕ → PluginAuthorizer
authorizer_of id purpose now = authorizer (table_prefix id) purpose now

-- Whether the statement is interrupted.
unfoldable pub progress : PluginAuthorizer → Bool → ℕ → Bool
progress state interrupting now = interrupting || ltb state.deadline now

unfoldable pub named : Option Bytes → Bytes → Bool
named none expected = false
named (some name) expected = same name expected

abbrev pub automatic_index : Option Bytes → Bool
automatic_index none = false
automatic_index (some name) = starts_with (codes "sqlite_autoindex_") name

unfoldable pub schema_table : Option Bytes → Bool
schema_table name =
    named name (codes "sqlite_master")
    || named name (codes "sqlite_schema")
    || named name (codes "sqlite_temp_master")
    || named name (codes "sqlite_temp_schema")

unfoldable pub internal_table : Option Bytes → Bool
internal_table name =
    schema_table name
    || named name (codes "sqlite_sequence")
    || named name (codes "pragma_quick_check")

unfoldable pub internal_read : PluginAuthorizer → Option Bytes → Bool
internal_read state table =
    if not state.changing_schema || not (internal_table table)
    then false
    else not state.querying || named table (codes "pragma_quick_check")

unfoldable pub change_schema : PluginAuthorizer → Bool → PluginAuthorizer × Bool
change_schema state permitted =
    if not permitted || not state.migrating
    then (state, false)
    else (record state { changing_schema = true }, true)

abbrev pub writes : PluginAuthorizer → Option Bytes → Bool
writes state table =
    owned table state.prefix || schema_table table || state.changing_schema && internal_table table

-- `SQLITE_OK` is `true`, and `SQLITE_DENY` is `false`.
unfoldable pub authorize :
    PluginAuthorizer → Action → Option Bytes → Option Bytes → PluginAuthorizer × Bool
authorize state select first second =
    (record state { querying = state.querying || not state.altering }, true)
authorize state recursive first second = (state, true)
authorize state function first second = (state, not (named second (codes "sqlite_rename_table")))
authorize state read first second = (state, owned first state.prefix || internal_read state first)
authorize state insert first second = (state, writes state first)
authorize state update first second = (state, writes state first)
authorize state delete first second = (state, writes state first)
authorize state create_table first second =
    change_schema state
      (owned first state.prefix || state.changing_schema && named first (codes "sqlite_sequence"))
authorize state drop_table first second = change_schema state (owned first state.prefix)
authorize state create_index first second =
    change_schema state
      ((owned first state.prefix || automatic_index first) && owned second state.prefix)
authorize state drop_index first second =
    change_schema state
      ((owned first state.prefix || automatic_index first) && owned second state.prefix)
authorize state create_view first second = change_schema state (owned first state.prefix)
authorize state drop_view first second = change_schema state (owned first state.prefix)
authorize state create_trigger first second =
    change_schema state (owned first state.prefix && owned second state.prefix)
authorize state drop_trigger first second =
    change_schema state (owned first state.prefix && owned second state.prefix)
authorize state alter_table first second =
    change_schema (record state { altering = true }) (owned second state.prefix)
authorize state reindex first second = (state, state.changing_schema && owned first state.prefix)
authorize state pragma first second =
    (state, state.changing_schema && named first (codes "quick_check") && owned second state.prefix)
authorize state another first second = (state, false)

pub record Call : Type 0 where
  pub action : Action
  pub first : Option Bytes
  pub second : Option Bytes

-- The calls that SQLite makes while an authorizer is set.
unfoldable pub authorize_all : PluginAuthorizer → List Call → PluginAuthorizer
authorize_all state [] = state
authorize_all state (c ∷ calls) = authorize_all (authorize state c.action c.first c.second).0 calls

-- What the callback answers last to some calls in turn.
unfoldable pub answer_last : PluginAuthorizer → List Call → Bool
answer_last state [] = true
answer_last state (c ∷ []) = (authorize state c.action c.first c.second).1
answer_last state (c ∷ next ∷ calls) =
    answer_last (authorize state c.action c.first c.second).0 (next ∷ calls)
