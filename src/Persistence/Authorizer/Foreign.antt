-- ===== src/Persistence/Authorizer/Foreign.antt =====
-- A statement of one plugin reaches no table of another.
use workpane.Prelude.{◌≡◌, refl, Bool, true, false, ◌&&◌, Option, none, Bool-cases, inl, inr, arith}
use workpane.Prelude.Bytes.{Bytes, codes}
use workpane.Persistence.TablePrefix.{table_prefix, owned}
use workpane.Persistence.Authorizer.{
  Action, select, recursive, function, read, insert, update, delete, create_table, drop_table,
  create_index, drop_index, create_view, drop_view, create_trigger, drop_trigger, alter_table,
  reindex, pragma, another, PluginAuthorizer, named, internal_read, change_schema, writes,
  authorize,
}
use workpane.Persistence.Authorizer.Internal.{
  schema_table-owned, internal_table-owned, sequence-owned,
}

-- Which of the names of a call is that of the table or view it is about, or else of the index.
abbrev pub target : Action → Option Bytes → Option Bytes → Option Bytes
target select first second = none
target recursive first second = none
target function first second = none
target read first second = first
target insert first second = first
target update first second = first
target delete first second = first
target create_table first second = first
target drop_table first second = first
target create_index first second = second
target drop_index first second = second
target create_view first second = first
target drop_view first second = first
target create_trigger first second = second
target drop_trigger first second = second
target alter_table first second = second
target reindex first second = first
target pragma first second = second
target another first second = none

not_permitted :
    (state : PluginAuthorizer) (permitted : Bool)
    → permitted ≡ false
    → (change_schema state permitted).1 ≡ false
unfolding change_schema
not_permitted state permitted h = rw h refl

foreign_last : (p q : Bool) → q ≡ false → (p && q) ≡ false
foreign_last p q h = ground (arith, h)

module _ (state : PluginAuthorizer) (table : Option Bytes)
    (foreign : owned table state.prefix ≡ false) (id : Bytes)
    (its : owned table (table_prefix id) ≡ true) where
  no_write : writes state table ≡ false
  no_write =
      rw (foreign, schema_table-owned table id its, internal_table-owned table id its)
        (foreign_last state.changing_schema false refl)

  no_read : internal_read state table ≡ false
  unfolding internal_read
  no_read = elim (Bool-cases state.changing_schema) [
    | inl e ↦ rw (e, internal_table-owned table id its) refl
    | inr e ↦ rw e refl
  ]

pub authorize-foreign :
    (state : PluginAuthorizer) (action : Action) (first second : Option Bytes) (id : Bytes)
    → owned (target action first second) state.prefix ≡ false
    → owned (target action first second) (table_prefix id) ≡ true
    → (authorize state action first second).1 ≡ false
unfolding authorize owned
authorize-foreign state select first second id h g = absurd (cc g)
authorize-foreign state recursive first second id h g = absurd (cc g)
authorize-foreign state function first second id h g = absurd (cc g)
authorize-foreign state read first second id h g = rw (h, no_read state first h id g) refl
authorize-foreign state insert first second id h g = no_write state first h id g
authorize-foreign state update first second id h g = no_write state first h id g
authorize-foreign state delete first second id h g = no_write state first h id g
authorize-foreign state create_table first second id h g =
    not_permitted state _
      (rw (h, sequence-owned first id g) (foreign_last state.changing_schema false refl))
authorize-foreign state drop_table first second id h g = not_permitted state _ h
authorize-foreign state create_index first second id h g =
    not_permitted state _ (foreign_last _ _ h)
authorize-foreign state drop_index first second id h g = not_permitted state _ (foreign_last _ _ h)
authorize-foreign state create_view first second id h g = not_permitted state _ h
authorize-foreign state drop_view first second id h g = not_permitted state _ h
authorize-foreign state create_trigger first second id h g =
    not_permitted state _ (foreign_last _ _ h)
authorize-foreign state drop_trigger first second id h g =
    not_permitted state _ (foreign_last _ _ h)
authorize-foreign state alter_table first second id h g =
    not_permitted (record state { altering = true }) _ h
authorize-foreign state reindex first second id h g = foreign_last state.changing_schema _ h
authorize-foreign state pragma first second id h g =
    foreign_last (state.changing_schema && named first (codes "quick_check")) _ h
authorize-foreign state another first second id h g = refl
