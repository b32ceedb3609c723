-- ===== src/Persistence/Authorizer/Isolation.antt =====
-- The tables of a plugin are its own, through every call of a statement or migration.
use workpane.Prelude.{
  ℕ, ◌≡◌, refl, ◌∙◌, ap, Bool, true, false, not, ◌||◌, List, [], ◌∷◌, Option, Bool-cases, inl, inr,
}
use workpane.Prelude.Bytes.{Bytes}
use workpane.Scripting.Identifier.{valid}
use workpane.Persistence.TablePrefix.{table_prefix, owned}
use workpane.Persistence.TablePrefix.Owners.{owned_unique}
use workpane.Persistence.Authorizer.{
  Purpose, Action, select, recursive, function, read, insert, update, delete, create_table,
  drop_table, create_index, drop_index, create_view, drop_view, create_trigger, drop_trigger,
  alter_table, reindex, pragma, another, PluginAuthorizer, authorizer, authorizer_of, change_schema,
  authorize, Call, authorize_all,
}
use workpane.Persistence.Authorizer.Foreign.{target, authorize-foreign}

change_schema-prefix :
    (state : PluginAuthorizer) (permitted : Bool)
    → (change_schema state permitted).0.prefix ≡ state.prefix
unfolding change_schema
change_schema-prefix state permitted = elim (Bool-cases (not permitted || not state.migrating)) [
  | inl e ↦ rw e refl
  | inr e ↦ rw e refl
]

authorize-prefix :
    (state : PluginAuthorizer) (action : Action) (first second : Option Bytes)
    → (authorize state action first second).0.prefix ≡ state.prefix
unfolding authorize
authorize-prefix state select first second = refl
authorize-prefix state recursive first second = refl
authorize-prefix state function first second = refl
authorize-prefix state read first second = refl
authorize-prefix state insert first second = refl
authorize-prefix state update first second = refl
authorize-prefix state delete first second = refl
authorize-prefix state create_table first second = change_schema-prefix state _
authorize-prefix state drop_table first second = change_schema-prefix state _
authorize-prefix state create_index first second = change_schema-prefix state _
authorize-prefix state drop_index first second = change_schema-prefix state _
authorize-prefix state create_view first second = change_schema-prefix state _
authorize-prefix state drop_view first second = change_schema-prefix state _
authorize-prefix state create_trigger first second = change_schema-prefix state _
authorize-prefix state drop_trigger first second = change_schema-prefix state _
authorize-prefix state alter_table first second =
    change_schema-prefix (record state { altering = true }) _
authorize-prefix state reindex first second = refl
authorize-prefix state pragma first second = refl
authorize-prefix state another first second = refl

authorize_all-prefix :
    (state : PluginAuthorizer) (calls : List Call)
    → (authorize_all state calls).prefix ≡ state.prefix
unfolding authorize_all
authorize_all-prefix state [] = refl
authorize_all-prefix state (c ∷ calls) =
    authorize_all-prefix (authorize state c.action c.first c.second).0 calls
    ∙ authorize-prefix state c.action c.first c.second

not_owned :
    (a b : Bytes) (table : Option Bytes)
    → valid a ≡ true
    → valid b ≡ true
    → ¬ (a ≡ b)
    → owned table (table_prefix b) ≡ true
    → owned table (table_prefix a) ≡ false
not_owned a b table h g n e = elim (Bool-cases (owned table (table_prefix a))) [
  | inl f ↦ absurd (n (owned_unique a b table h g f e))
  | inr f ↦ f
]

-- While a statement or migration of one plugin runs, whatever SQLite has asked before, it is denied every
-- read, write, creation, change or removal that is about a table or view named with the prefix of another
-- plugin, and every index or trigger on one, where both have valid identifiers.
pub authorize_all-foreign :
    (a b : Bytes) (purpose : Purpose) (now : ℕ) (calls : List Call) (action : Action)
    (first second : Option Bytes)
    → valid a ≡ true
    → valid b ≡ true
    → ¬ (a ≡ b)
    → owned (target action first second) (table_prefix b) ≡ true
    → (authorize (authorize_all (authorizer_of a purpose now) calls) action first second).1 ≡ false
unfolding authorizer authorizer_of
authorize_all-foreign a b purpose now calls action first second h g n e =
    let state = authorize_all (authorizer_of a purpose now) calls in
    let p = authorize_all-prefix (authorizer_of a purpose now) calls in
    authorize-foreign state action first second b
      (ap (owned (target action first second)) p
        ∙ not_owned a b (target action first second) h g n e)
      e
