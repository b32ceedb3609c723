-- ===== src/Persistence/Migrations/Rounds.antt =====
-- One migration is stored whole, or not at all.
use workpane.Prelude.{
  ℕ, ◌≡◌, refl, sym, ◌∙◌, ap, true, false, List, [], ◌∷◌, ◌++◌, All, subst, inl, inr,
}
use workpane.Prelude.Bytes.{Bytes}
use workpane.Result.{Result, success, failure, Result-cases}
use workpane.Persistence.TablePrefix.{table_prefix}
use workpane.Persistence.Authorizer.{migration}
use workpane.Persistence.Transactions.{Execution, Database}
use workpane.Persistence.Transactions.Atomic.{
  IsTransactional, IsEnded, rollback-stored, rollback-IsEnded, run_as-keeps, run_as-stays,
}
use workpane.Persistence.Migrations.Compared.{IsOwn, own_rows-All}
use workpane.Persistence.Migrations.{
  Queries, own_rows, own_parents, change, change_all, change_every, passed_on, then_do, undone,
  apply_one,
}

-- What SQLite documents of the statements that the core runs itself, outside and inside a transaction.
pub record IsQueried {D V C : Type 0} (db : Database D V) (q : Queries D) (stored : D → C)
    : Type 0 where
  pub version_keeps :
      (id : Bytes) (d : D)
      → db.autocommit d ≡ true
      → (stored (q.version_of id d).0 ≡ stored d) × (db.autocommit (q.version_of id d).0 ≡ true)
  pub definitions_keeps :
      (prefix : Bytes) (d : D)
      → db.autocommit d ≡ true
      → (stored (q.definitions prefix d).0 ≡ stored d)
        × (db.autocommit (q.definitions prefix d).0 ≡ true)
  pub keys_keeps :
      (prefix : Bytes) (d : D)
      → db.autocommit d ≡ false
      → stored (q.foreign_keys prefix d).0 ≡ stored d
  -- Only a failure ends the transaction by itself.
  pub keys_stays :
      (prefix : Bytes) (d : D) (rows : List (Bytes × Bytes))
      → db.autocommit d ≡ false
      → (q.foreign_keys prefix d).1 ≡ success rows
      → db.autocommit (q.foreign_keys prefix d).0 ≡ false
  pub record_keeps :
      (id : Bytes) (version : ℕ) (d : D)
      → db.autocommit d ≡ false
      → stored (q.record_version id version d).0 ≡ stored d
  pub record_stays :
      (id : Bytes) (version : ℕ) (d : D) (x : Execution)
      → db.autocommit d ≡ false
      → (q.record_version id version d).1 ≡ success x
      → db.autocommit (q.record_version id version d).0 ≡ false

module _ {D V C : Type 0} (db : Database D V) (q : Queries D) (stored worked : D → C)
    (laws : IsTransactional db stored worked) (queried : IsQueried db q stored) (id : Bytes) where
  -- Statements that have run in turn.
  pub data Changed : List Bytes → D → D → Type 0 where
    unchanged : {d : D} → Changed [] d d
    changed_by :
        {sql : Bytes} {rest : List Bytes} {d d₁ d' : D} {x : Execution}
        → change db q id sql d ≡ (d₁, success x)
        → Changed rest d₁ d'
        → Changed (sql ∷ rest) d d'

  -- One migration, from what is stored to what it commits: all its statements have run in turn, every
  -- foreign key of the plugin leads to a table of its own, and the version has been recorded.
  pub record IsApplied (version : ℕ) (statements : List Bytes) (before after : C) : Type 0 where
    pub first : D
    pub middle : D
    pub checked : D
    pub last : D
    pub execution : Execution
    pub starts : worked first ≡ before
    pub changed : Changed statements first middle
    pub foreign_keys : List (Bytes × Bytes)
    pub asked : q.foreign_keys (table_prefix id) middle ≡ (checked, success foreign_keys)
    pub owned : All (IsOwn (table_prefix id)) foreign_keys
    pub recorded : q.record_version id version checked ≡ (last, success execution)
    pub ends : after ≡ worked last

  then_do-success :
      {A B : Type 0} (f : A → D → D × Result B) (p : D × Result A) {d' : D} {b : B}
      → then_do db q f p ≡ (d', success b)
      → (d₁ : D) × (a : A) × (p ≡ (d₁, success a)) × (f a d₁ ≡ (d', success b))
  then_do-success f (d₁, failure e) h = absurd (let h' = ap (λ r. r.1) h in cc)
  then_do-success f (d₁, success a) h = (d₁, a, refl, h)

  -- What the stages leave: a failure has stored nothing.
  abbrev IsChanging : List Bytes → D → D × Result (Unit {0}) → Type 0
  IsChanging statements d (d', failure e) = stored d' ≡ stored d
  IsChanging statements d (d', success u) =
      Changed statements d d' × (stored d' ≡ stored d) × (db.autocommit d' ≡ false)

  changed_first :
      (sql : Bytes) (rest : List Bytes) (d d₁ : D) (x : Execution) (r : D × Result (Unit {0}))
      → change db q id sql d ≡ (d₁, success x)
      → stored d₁ ≡ stored d
      → IsChanging rest d₁ r
      → IsChanging (sql ∷ rest) d r
  changed_first sql rest d d₁ x (d', failure e) p k h = h ∙ k
  changed_first sql rest d d₁ x (d', success u) p k (c, h, o) = (changed_by p c, h ∙ k, o)

  change_all-first :
      (sql : Bytes) (rest : List Bytes) (d : D) (p : D × Result Execution)
      → db.autocommit d ≡ false
      → change db q id sql d ≡ p
      → ((d₁ : D) → db.autocommit d₁ ≡ false → IsChanging rest d₁ (change_all db q id rest d₁))
      → IsChanging (sql ∷ rest) d (then_do db q (λ x. change_all db q id rest) p)
  unfolding change
  change_all-first sql rest d (d₁, failure e) a p next =
      ap (λ r. stored r.0) (sym p)
      ∙ run_as-keeps db stored worked laws id migration (record { sql = sql; bindings = [] }) d a
  change_all-first sql rest d (d₁, success x) a p next =
      let s =
        run_as-keeps db stored worked laws id migration (record { sql = sql; bindings = [] }) d a in
      let o =
        run_as-stays db stored worked laws id migration (record { sql = sql; bindings = [] }) d x a
          (ap (λ r. r.1) p) in
      changed_first sql rest d d₁ x (change_all db q id rest d₁) p
        (ap (λ r. stored r.0) (sym p) ∙ s) (next d₁ (ap (λ r. db.autocommit r.0) (sym p) ∙ o))

  pub change_all-IsChanging :
      (statements : List Bytes) (d : D)
      → db.autocommit d ≡ false
      → IsChanging statements d (change_all db q id statements d)
  unfolding change_all
  change_all-IsChanging [] d a = (unchanged, refl, a)
  change_all-IsChanging (sql ∷ rest) d a =
      change_all-first sql rest d (change db q id sql d) a refl
        (λ d₁ o. change_all-IsChanging rest d₁ o)

  -- A round of the loop, from the open transaction on.
  abbrev pub IsRound : ℕ → List Bytes → D → D × Result (Unit {0}) → Type 0
  IsRound version statements d (d', failure e) = stored d' ≡ stored d
  IsRound version statements d (d', success u) =
      IsApplied version statements (worked d) (stored d') × (db.autocommit d' ≡ true)

  module _ (version : ℕ) (statements : List Bytes) (d : D) where
    committed :
        (d₁ d₂ d₃ : D) (x : Execution) (rows : List (Bytes × Bytes)) (p : D × Result (Unit {0}))
        → Changed statements d d₁
        → q.foreign_keys (table_prefix id) d₁ ≡ (d₂, success rows)
        → All (IsOwn (table_prefix id)) rows
        → q.record_version id version d₂ ≡ (d₃, success x)
        → stored d₃ ≡ stored d
        → db.autocommit d₃ ≡ false
        → db.execute_script "COMMIT;" d₃ ≡ p
        → IsRound version statements d p
    committed d₁ d₂ d₃ x rows (d', failure e) c f w r k o p =
        ap (λ z. stored z.0) (sym p) ∙ laws.commit_keeps d₃ e o (ap (λ z. z.1) p) ∙ k
    committed d₁ d₂ d₃ x rows (d', success u) c f w r k o p =
        let (b, a) = laws.commit_stores d₃ o (ap (λ z. z.1) p) in
        (
          record {
            first = d;
            middle = d₁;
            checked = d₂;
            last = d₃;
            execution = x;
            starts = refl;
            changed = c;
            foreign_keys = rows;
            asked = f;
            owned = w;
            recorded = r;
            ends = ap (λ z. stored z.0) (sym p) ∙ b;
          },
          ap (λ z. db.autocommit z.0) (sym p) ∙ a,
        )

    recorded_round :
        (d₁ d₂ : D) (rows : List (Bytes × Bytes)) (p : D × Result Execution)
        → Changed statements d d₁
        → q.foreign_keys (table_prefix id) d₁ ≡ (d₂, success rows)
        → All (IsOwn (table_prefix id)) rows
        → stored d₂ ≡ stored d
        → db.autocommit d₂ ≡ false
        → q.record_version id version d₂ ≡ p
        → IsRound version statements d (then_do db q (λ z. db.execute_script "COMMIT;") p)
    recorded_round d₁ d₂ rows (d₃, failure e) c f w k o p =
        ap (λ z. stored z.0) (sym p) ∙ queried.record_keeps id version d₂ o ∙ k
    recorded_round d₁ d₂ rows (d₃, success x) c f w k o p =
        committed d₁ d₂ d₃ x rows (db.execute_script "COMMIT;" d₃) c f w p
          (ap (λ z. stored z.0) (sym p) ∙ queried.record_keeps id version d₂ o ∙ k)
          (ap (λ z. db.autocommit z.0) (sym p)
            ∙ queried.record_stays id version d₂ x o (ap (λ z. z.1) p))
          refl

    -- The rows of the foreign keys are those of the query, whatever the loop over them finds.
    checked_round :
        (d₁ : D) (p : D × Result (List (Bytes × Bytes)))
        → Changed statements d d₁
        → stored d₁ ≡ stored d
        → db.autocommit d₁ ≡ false
        → q.foreign_keys (table_prefix id) d₁ ≡ p
        → IsRound version statements d (
            then_do db q
              (λ y d₂.
                then_do db q (λ z. db.execute_script "COMMIT;") (q.record_version id version d₂))
              (passed_on db q (own_rows (table_prefix id)) p))
    unfolding own_parents
    checked_round d₁ (d₂, failure e) c k o p =
        ap (λ z. stored z.0) (sym p) ∙ queried.keys_keeps (table_prefix id) d₁ o ∙ k
    checked_round d₁ (d₂, success rows) c k o p =
        let k₂ = ap (λ z. stored z.0) (sym p) ∙ queried.keys_keeps (table_prefix id) d₁ o ∙ k in
        let o₂ =
          ap (λ z. db.autocommit z.0) (sym p)
          ∙ queried.keys_stays (table_prefix id) d₁ rows o (ap (λ z. z.1) p) in
        elim (Result-cases (own_rows (table_prefix id) rows)) [
          | inl (u, e) ↦ rw e (
              recorded_round d₁ d₂ rows (q.record_version id version d₂) c p
                (own_rows-All (table_prefix id) rows e) k₂ o₂ refl)
          | inr (err, e) ↦ rw e k₂
        ]

    changed_round :
        (p : D × Result (Unit {0}))
        → IsChanging statements d p
        → IsRound version statements d (
            then_do db q
              (λ x d₁.
                then_do db q
                  (λ y d₂.
                    then_do db q
                      (λ z. db.execute_script "COMMIT;")
                      (q.record_version id version d₂))
                  (own_parents db q id d₁))
              p)
    unfolding own_parents
    changed_round (d₁, failure e) h = h
    changed_round (d₁, success u) (c, k, o) =
        checked_round d₁ (q.foreign_keys (table_prefix id) d₁) c k o refl

    pub apply_one-IsRound :
        db.autocommit d ≡ false
        → IsRound version statements d (apply_one db q id version statements d)
    unfolding apply_one
    apply_one-IsRound a =
        changed_round (change_all db q id statements d) (change_all-IsChanging statements d a)

    -- The same behind the rollback: a failure has closed the transaction.
    abbrev pub IsSettled : D × Result (Unit {0}) → Type 0
    IsSettled (d', failure e) = (stored d' ≡ stored d) × IsEnded db stored worked laws id d' e
    IsSettled (d', success u) =
        IsApplied version statements (worked d) (stored d') × (db.autocommit d' ≡ true)

    pub undone-IsSettled :
        (p : D × Result (Unit {0})) → IsRound version statements d p → IsSettled (undone db q p)
    undone-IsSettled (d', failure e) h = (
      rollback-stored db stored worked laws id d' e ∙ h,
      rollback-IsEnded db stored worked laws id d' e,
    )
    undone-IsSettled (d', success u) h = h

  -- All the statements of all migrations have run in turn.
  pub Changed-append :
      (xs ys : List Bytes) {d d₁ d' : D}
      → Changed xs d d₁
      → Changed ys d₁ d'
      → Changed (xs ++ ys) d d'
  Changed-append [] ys unchanged c = c
  Changed-append (x ∷ xs) ys (changed_by p b) c = changed_by p (Changed-append xs ys b c)

  change_all-Changed :
      (statements : List Bytes) (d d' : D)
      → change_all db q id statements d ≡ (d', success tt)
      → Changed statements d d'
  unfolding change_all
  change_all-Changed [] d d' h = subst (Changed [] d) (ap (λ p. p.0) h) unchanged
  change_all-Changed (sql ∷ rest) d d' h =
      let (d₁, x, e, k) = then_do-success (λ x. change_all db q id rest) (change db q id sql d) h in
      changed_by e (change_all-Changed rest d₁ d' k)

  abbrev pub concat : List (List Bytes) → List Bytes
  concat [] = []
  concat (statements ∷ rest) = statements ++ concat rest

  pub change_every-Changed :
      (migrations : List (List Bytes)) (d d' : D)
      → change_every db q id migrations d ≡ (d', success tt)
      → Changed (concat migrations) d d'
  unfolding change_every
  change_every-Changed [] d d' h = subst (Changed [] d) (ap (λ p. p.0) h) unchanged
  change_every-Changed (statements ∷ rest) d d' h =
      let (d₁, u, e, k) =
        then_do-success (λ x. change_every db q id rest) (change_all db q id statements d) h in
      Changed-append statements (concat rest) (change_all-Changed statements d d₁ e)
        (change_every-Changed rest d₁ d' k)
