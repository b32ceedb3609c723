-- ===== src/Persistence/Transactions/Atomic.antt =====
-- Several statements apply together or not at all.
use workpane.Prelude.{
  ◌≡◌, ◌⊎◌, Option, Bool, ap, refl, sym, ◌∙◌, true, false, List, [], ◌∷◌, ◌++◌, Bool-cases, inl,
  inr, subst, append-nil, append_assoc,
}
use workpane.Prelude.Bytes.{Bytes}
use workpane.Result.{Error, Result, success, failure, Result-cases}
use workpane.Persistence.Authorizer.{
  Purpose, statement, Call, another, PluginAuthorizer, authorize, answer_last, authorizer_of,
}
use workpane.Persistence.Transactions.{
  Statement, Execution, Database, rollback, error_of, run_as, failed, run_all, commit, transaction,
}

-- A callback that denies `SQLITE_TRANSACTION`, `SQLITE_SAVEPOINT` and all else that has no case of its own.
abbrev pub DeniesTransactions : (List Call → Bool) → Type 0
DeniesTransactions guard =
    (calls : List Call) (first second : Option Bytes)
    → guard (calls ++ record { action = another; first = first; second = second } ∷ []) ≡ false

answer_last-DeniesTransactions : (state : PluginAuthorizer) → DeniesTransactions (answer_last state)
unfolding answer_last authorize
answer_last-DeniesTransactions state [] first second = refl
answer_last-DeniesTransactions state (c ∷ []) first second = refl
answer_last-DeniesTransactions state (c ∷ d ∷ calls) first second =
    answer_last-DeniesTransactions (authorize state c.action c.first c.second).0 (d ∷ calls) first
      second

-- What SQLite documents of transactions: the content that is stored stays until a commit succeeds, which
-- stores what the transaction has worked out, and a transaction works from the stored content.
pub record IsTransactional {D V C : Type 0} (db : Database D V) (stored worked : D → C)
    : Type 0 where
  pub begin_keeps :
      (d : D)
      → db.autocommit d ≡ true
      → stored (db.execute_script "BEGIN IMMEDIATE;" d).0 ≡ stored d
  pub begin_opens :
      (d : D)
      → db.autocommit d ≡ true
      → (db.execute_script "BEGIN IMMEDIATE;" d).1 ≡ success tt
      → (db.autocommit (db.execute_script "BEGIN IMMEDIATE;" d).0 ≡ false)
        × (worked (db.execute_script "BEGIN IMMEDIATE;" d).0 ≡ stored d)
  -- A failed `BEGIN` opens nothing.
  pub begin_fails :
      (d : D) (e : Error)
      → db.autocommit d ≡ true
      → (db.execute_script "BEGIN IMMEDIATE;" d).1 ≡ failure e
      → db.autocommit (db.execute_script "BEGIN IMMEDIATE;" d).0 ≡ true
  -- Under an authorizer that denies transactions no statement commits, and only a failure ends the
  -- transaction by itself.
  pub run_keeps :
      (guard : List Call → Bool) (s : Statement V) (d : D)
      → DeniesTransactions guard
      → db.autocommit d ≡ false
      → stored (db.run guard s d).0 ≡ stored d
  pub run_stays :
      (guard : List Call → Bool) (s : Statement V) (d : D) (x : Execution)
      → DeniesTransactions guard
      → db.autocommit d ≡ false
      → (db.run guard s d).1 ≡ success x
      → db.autocommit (db.run guard s d).0 ≡ false
  pub rollback_keeps :
      (d : D) → db.autocommit d ≡ false → stored (db.execute_script "ROLLBACK;" d).0 ≡ stored d
  pub rollback_ends :
      (d : D)
      → db.autocommit d ≡ false
      → (db.execute_script "ROLLBACK;" d).1 ≡ success tt
      → db.autocommit (db.execute_script "ROLLBACK;" d).0 ≡ true
  pub commit_stores :
      (d : D)
      → db.autocommit d ≡ false
      → (db.execute_script "COMMIT;" d).1 ≡ success tt
      → (stored (db.execute_script "COMMIT;" d).0 ≡ worked d)
        × (db.autocommit (db.execute_script "COMMIT;" d).0 ≡ true)
  pub commit_keeps :
      (d : D) (e : Error)
      → db.autocommit d ≡ false
      → (db.execute_script "COMMIT;" d).1 ≡ failure e
      → stored (db.execute_script "COMMIT;" d).0 ≡ stored d

module _ {D V C : Type 0} (db : Database D V) (stored worked : D → C)
    (laws : IsTransactional db stored worked) (id : Bytes) where
  pub run_as-keeps :
      (purpose : Purpose) (s : Statement V) (d : D)
      → db.autocommit d ≡ false
      → stored (run_as db id purpose s d).0 ≡ stored d
  unfolding run_as
  run_as-keeps purpose s d a =
      laws.run_keeps (answer_last (authorizer_of id purpose (db.now d))) s d
        (answer_last-DeniesTransactions (authorizer_of id purpose (db.now d))) a

  pub run_as-stays :
      (purpose : Purpose) (s : Statement V) (d : D) (x : Execution)
      → db.autocommit d ≡ false
      → (run_as db id purpose s d).1 ≡ success x
      → db.autocommit (run_as db id purpose s d).0 ≡ false
  unfolding run_as
  run_as-stays purpose s d x a p =
      laws.run_stays (answer_last (authorizer_of id purpose (db.now d))) s d x
        (answer_last-DeniesTransactions (authorizer_of id purpose (db.now d))) a p

  -- No transaction is open, or rolling it back has failed with the error that is answered.
  abbrev pub IsEnded : D → Error → Type 0
  IsEnded d e =
      (db.autocommit d ≡ true)
      ⊎ ((last : D) × (db.execute_script "ROLLBACK;" last ≡ (d, failure e)))

  -- Every statement of a list has run in turn.
  pub data Ran : List (Statement V) → D → List Execution → D → Type 0 where
    nothing : {d : D} → Ran [] d [] d
    after :
        {s : Statement V} {statements : List (Statement V)} {d d' : D} {x : Execution}
        {executions : List Execution}
        → (run_as db id statement s d).1 ≡ success x
        → Ran statements (run_as db id statement s d).0 executions d'
        → Ran (s ∷ statements) d (x ∷ executions) d'

  -- All that the statements do is stored, or nothing.
  abbrev pub IsAtomic : List (Statement V) → D → D × Result (List Execution) → Type 0
  IsAtomic statements d (d', failure e) = (stored d' ≡ stored d) × IsEnded d' e
  IsAtomic statements d (d', success executions) =
      (first : D) × (last : D) × (worked first ≡ stored d)
      × Ran statements first executions last
      × (stored d' ≡ worked last)
      × (db.autocommit d' ≡ true)

  pub rollback-stored : (d : D) (e : Error) → stored (rollback db d e).0 ≡ stored d
  unfolding rollback
  rollback-stored d e = elim (Bool-cases (db.autocommit d)) [
    | inl a ↦ rw a refl
    | inr a ↦ rw a (laws.rollback_keeps d a)
  ]

  rolled_back :
      (d : D) (e : Error) (p : D × Result (Unit {0}))
      → db.autocommit d ≡ false
      → db.execute_script "ROLLBACK;" d ≡ p
      → IsEnded p.0 (error_of p.1 e)
  rolled_back d e (d', success u) a p =
      inl (ap (λ z. db.autocommit z.0) (sym p) ∙ laws.rollback_ends d a (ap (λ z. z.1) p))
  rolled_back d e (d', failure other) a p = inr (d, p)

  pub rollback-IsEnded : (d : D) (e : Error) → IsEnded (rollback db d e).0 (rollback db d e).1
  unfolding rollback
  rollback-IsEnded d e = elim (Bool-cases (db.autocommit d)) [
    | inl a ↦ rw a (inl a)
    | inr a ↦ rw a (rolled_back d e (db.execute_script "ROLLBACK;" d) a refl)
  ]

  -- What the loop leaves: a failure has stored nothing, and a success has run all.
  abbrev IsRun : List (Statement V) → D → List Execution → D × Result (List Execution) → Type 0
  IsRun statements d done (d', failure e) = (stored d' ≡ stored d) × IsEnded d' e
  IsRun statements d done (d', success executions) =
      (more : List Execution) × (executions ≡ done ++ more)
      × Ran statements d more d'
      × (stored d' ≡ stored d)
      × (db.autocommit d' ≡ false)

  IsRun-after :
      (s : Statement V) (statements : List (Statement V)) (d : D) (x : Execution)
      (done : List Execution) (r : D × Result (List Execution))
      → db.autocommit d ≡ false
      → (run_as db id statement s d).1 ≡ success x
      → IsRun statements (run_as db id statement s d).0 (done ++ x ∷ []) r
      → IsRun (s ∷ statements) d done r
  IsRun-after s statements d x done (d', failure e) a p h =
      (h.0 ∙ run_as-keeps statement s d a, h.1)
  IsRun-after s statements d x done (d', success executions) a p (more, e, r, k, o) = (
    x ∷ more,
    e ∙ append_assoc done (x ∷ []) more,
    after p r,
    k ∙ run_as-keeps statement s d a,
    o,
  )

  run_all-failure :
      (s : Statement V) (statements : List (Statement V)) (d : D) (done : List Execution)
      (e : Error)
      → (run_as db id statement s d).1 ≡ failure e
      → run_all db id (s ∷ statements) d done
        ≡ failed db (rollback db (run_as db id statement s d).0 e)
  unfolding run_all
  run_all-failure s statements d done e p = rw (p, run_all) refl

  run_all-success :
      (s : Statement V) (statements : List (Statement V)) (d : D) (done : List Execution)
      (x : Execution)
      → (run_as db id statement s d).1 ≡ success x
      → run_all db id (s ∷ statements) d done
        ≡ run_all db id statements (run_as db id statement s d).0 (done ++ x ∷ [])
  unfolding run_all
  run_all-success s statements d done x p = rw (p, run_all) refl

  run_all-IsRun :
      (statements : List (Statement V)) (d : D) (done : List Execution)
      → db.autocommit d ≡ false
      → IsRun statements d done (run_all db id statements d done)
  unfolding run_all
  run_all-IsRun [] d done a = ([], sym (append-nil done), nothing, refl, a)
  run_all-IsRun (s ∷ statements) d done a =
      let d₁ = (run_as db id statement s d).0 in
      elim (Result-cases (run_as db id statement s d).1) [
        | inr (e, p) ↦
            subst (IsRun (s ∷ statements) d done) (sym (run_all-failure s statements d done e p))
              (rollback-stored d₁ e ∙ run_as-keeps statement s d a, rollback-IsEnded d₁ e)
        | inl (x, p) ↦
            subst (IsRun (s ∷ statements) d done) (sym (run_all-success s statements d done x p)) (
              IsRun-after s statements d x done (run_all db id statements d₁ (done ++ x ∷ [])) a p
                (run_all-IsRun statements d₁ (done ++ x ∷ []) (run_as-stays statement s d x a p)))
      ]

  commit-IsAtomic :
      (statements : List (Statement V)) (first d : D) (executions : List Execution) (content : C)
      → worked first ≡ content
      → stored d ≡ content
      → db.autocommit d ≡ false
      → Ran statements first executions d
      → (start : D) → stored start ≡ content
      → IsAtomic statements start (commit db d executions)
  commit-IsAtomic statements first d executions content w k o r start g =
      elim (Result-cases (db.execute_script "COMMIT;" d).1) [
        | inr (e, p) ↦
            let q : commit db d executions
                ≡ failed db (rollback db (db.execute_script "COMMIT;" d).0 e) =
              rw (p, commit) refl in
            subst (IsAtomic statements start) (sym q) (
              rollback-stored (db.execute_script "COMMIT;" d).0 e
                  ∙ laws.commit_keeps d e o p
                  ∙ k
                  ∙ sym g,
              rollback-IsEnded (db.execute_script "COMMIT;" d).0 e,
            )
        | inl (u, p) ↦
            let (b, c) = laws.commit_stores d o p in
            let q : commit db d executions
                ≡ ((db.execute_script "COMMIT;" d).0, success executions) =
              rw (p, commit) refl in
            subst (IsAtomic statements start) (sym q) (first, d, w ∙ sym g, r, b, c)
      ]

  -- What follows the statements.
  close : D × Result (List Execution) → D × Result (List Execution)
  close (d, failure e) = (d, failure e)
  close (d, success executions) = commit db d executions

  close-IsAtomic :
      (statements : List (Statement V)) (start first : D) (r : D × Result (List Execution))
      → worked first ≡ stored start
      → stored first ≡ stored start
      → IsRun statements first [] r
      → IsAtomic statements start (close r)
  unfolding close
  close-IsAtomic statements start first (d, failure e) w k h = (h.0 ∙ k, h.1)
  close-IsAtomic statements start first (d, success executions) w k (more, e, r, j, o) =
      subst (λ (l : List Execution). IsAtomic statements start (commit db d l)) (sym e)
        (commit-IsAtomic statements first d more (stored start) w (j ∙ k) o r start refl)

  -- A transaction outside any other stores all that its statements do, each run in turn on the stored
  -- content, or it fails and stores nothing; either way it is over, but for a failed rollback, whose error is
  -- then the answer. This is so where the database keeps what SQLite documents.
  pub transaction-IsAtomic :
      (statements : List (Statement V)) (d : D)
      → db.autocommit d ≡ true
      → IsAtomic statements d (transaction db id statements d)
  unfolding transaction close
  transaction-IsAtomic statements d a =
      let begun = db.execute_script "BEGIN IMMEDIATE;" d in
      elim (Result-cases begun.1) [
        | inr (e, p) ↦
            let q : transaction db id statements d ≡ (begun.0, failure e) =
              rw (p, transaction) refl in
            subst (IsAtomic statements d) (sym q)
              (laws.begin_keeps d a, inl (laws.begin_fails d e a p))
        | inl (u, p) ↦
            let (o, w) = laws.begin_opens d a p in
            let q : transaction db id statements d ≡ close (run_all db id statements begun.0 []) =
              rw (p, transaction, close) refl in
            subst (IsAtomic statements d) (sym q) (
              close-IsAtomic statements d begun.0 (run_all db id statements begun.0 []) w
                (laws.begin_keeps d a) (run_all-IsRun statements begun.0 [] o))
      ]
