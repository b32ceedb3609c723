-- ===== src/Persistence/Migrations/Verifying.antt =====
-- `verify` finds the tables of a plugin as its migrations create them.
use workpane.Prelude.{◌≡◌, refl, sym, ap, ◌∙◌, true, List, [], inl, inr}
use workpane.Prelude.Bytes.{Bytes}
use workpane.Result.{Result, success, failure, Result-cases}
use workpane.Persistence.TablePrefix.{table_prefix}
use workpane.Persistence.Transactions.{Database}
use workpane.Persistence.Transactions.Atomic.{IsTransactional}
use workpane.Persistence.Migrations.{
  Queries, schema, change_every, verify, verified, passed_on, both_ways, compared, collect, find,
  all_stored,
}
use workpane.Persistence.Migrations.Compared.{definition_of, find-collect, all_stored-all_expected}
use workpane.Persistence.Migrations.Rounds.{IsQueried, Changed, concat, change_every-Changed}

module _ {D V C : Type 0} (db : Database D V) (q : Queries D) (stored worked : D → C)
    (laws : IsTransactional db stored worked) (queried : IsQueried db q stored) (id : Bytes) where
  -- The tables of the plugin are those that its migrations create in an empty database: each name has the
  -- same first definition in both, in normal form, or none in either.
  pub record IsVerified (migrations : List (List Bytes)) (d : D) : Type 0 where
    pub scratch : D
    pub built : D
    pub expected : List (Bytes × Bytes)
    pub found : List (Bytes × Bytes)
    pub opened : q.open_scratch ≡ success scratch
    pub changed :
        Changed db q stored worked laws queried id
          (concat db q stored worked laws queried id migrations)
          scratch
          built
    pub expects : (q.definitions (table_prefix id) built).1 ≡ success expected
    pub finds : (q.definitions (table_prefix id) d).1 ≡ success found
    pub agrees : (name : Bytes) → definition_of name expected ≡ definition_of name found

  -- What verifying leaves.
  abbrev pub IsChecked : List (List Bytes) → D → D × Result (Unit {0}) → Type 0
  IsChecked migrations d (d', failure e) = (stored d' ≡ stored d) × (db.autocommit d' ≡ true)
  IsChecked migrations d (d', success u) =
      (stored d' ≡ stored d) × (db.autocommit d' ≡ true) × IsVerified migrations d

  compared-agrees :
      (expected found : List (Bytes × Bytes))
      → both_ways db q (collect expected []) (collect found []) ≡ success tt
      → (name : Bytes) → definition_of name expected ≡ definition_of name found
  unfolding find
  compared-agrees expected found h name =
      elim (Result-cases (all_stored (collect found []) (collect expected []))) [
        | inr (x, e) ↦ let h' = rw (e, both_ways) at h in absurd (cc)
        | inl (u, e) ↦
            sym (find-collect name expected [])
            ∙ all_stored-all_expected (collect expected []) (collect found []) name e
                (rw (e, both_ways) at h)
            ∙ find-collect name found []
      ]

  schema-IsChecked :
      (migrations : List (List Bytes)) (scratch built d : D)
      (e s : D × Result (List (Bytes × Bytes)))
      → q.open_scratch ≡ success scratch
      → change_every db q id migrations scratch ≡ (built, success tt)
      → q.definitions (table_prefix id) built ≡ e
      → q.definitions (table_prefix id) d ≡ s
      → stored s.0 ≡ stored d
      → db.autocommit s.0 ≡ true
      → IsChecked migrations d (
        (passed_on db q (λ rows. success (collect rows [])) s).0,
        compared db q
            (passed_on db q (λ rows. success (collect rows [])) e).1
            (passed_on db q (λ rows. success (collect rows [])) s).1,
      )
  schema-IsChecked migrations scratch built d (b, failure x) (d', failure y) o c f g k a = (k, a)
  schema-IsChecked migrations scratch built d (b, failure x) (d', success t) o c f g k a = (k, a)
  schema-IsChecked migrations scratch built d (b, success r) (d', failure y) o c f g k a = (k, a)
  schema-IsChecked migrations scratch built d (b, success r) (d', success t) o c f g k a =
      elim (Result-cases (both_ways db q (collect r []) (collect t []))) [
        | inr (x, e) ↦ rw e (k, a)
        | inl (u, e) ↦ rw e (
          k,
          a,
          record {
            scratch = scratch;
            built = built;
            expected = r;
            found = t;
            opened = o;
            changed =
                change_every-Changed db q stored worked laws queried id migrations scratch built c;
            expects = ap (λ z. z.1) f;
            finds = ap (λ z. z.1) g;
            agrees = compared-agrees r t e;
          },
        )
      ]

  verified-IsChecked :
      (migrations : List (List Bytes)) (scratch d : D) (p : D × Result (Unit {0}))
      → db.autocommit d ≡ true
      → q.open_scratch ≡ success scratch
      → change_every db q id migrations scratch ≡ p
      → IsChecked migrations d (verified db q id d p)
  unfolding schema
  verified-IsChecked migrations scratch d (built, failure e) a o c = (refl, a)
  verified-IsChecked migrations scratch d (built, success u) a o c =
      let (k, b) = queried.definitions_keeps (table_prefix id) d a in
      schema-IsChecked migrations scratch built d (q.definitions (table_prefix id) built)
        (q.definitions (table_prefix id) d) o c refl refl k b

  pub verify-IsChecked :
      (migrations : List (List Bytes)) (d : D)
      → db.autocommit d ≡ true
      → IsChecked migrations d (verify db q id migrations d)
  unfolding verify
  verify-IsChecked migrations d a = elim (Result-cases q.open_scratch) [
    | inl (scratch, e) ↦
        rw (e, verify)
          (verified-IsChecked migrations scratch d (change_every db q id migrations scratch) a e
            refl)
    | inr (err, e) ↦ rw (e, verify) (refl, a)
  ]
