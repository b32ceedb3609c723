-- ===== src/Persistence/Preferences/Keeping.antt =====
-- The invariant of one owner of a preference store, and the steps up to a result.
use workpane.Prelude.{
  ℕ, suc, ◌+◌, ◌%◌, ◌^◌, ◌≤◌, ◌<◌, ◌≡◌, refl, sym, ◌∙◌, ap, subst, Bool, List, [], ◌∷◌, ◌++◌,
  Bool-cases, inl, inr, if◌then◌else◌, arith, append_assoc, append-nil,
}
use workpane.Prelude.Bytes.{Bytes, same, same-eq, same_refl}
use workpane.Result.{Result, success, failure}
use workpane.Persistence.Preferences.{
  Entry, Write, World, at, put, new_entry, opened, entry_of, write, row_after,
}
use workpane.Persistence.Preferences.Steps.{writes, outstanding, writes_of}
use workpane.Persistence.Preferences.Latest.{
  at-put, AreBehind, AreBehind-append, writes_of-append, writes-append, after, caught_up,
  caught_up-append,
}

module _ {J : Type 0} (is_object : J → Bool) (empty : J) where
  -- The invariant of one owner, after at most `n` writes.
  pub record IsKept (n : ℕ) (o : Bytes) (w : World J) : Type 0 where
    pub bound : (entry_of is_object empty o w).revision ≤ n
    pub behind : AreBehind (entry_of is_object empty o w) (writes_of o (outstanding w))
    pub stored : at o w.rows empty ≡ caught_up o (entry_of is_object empty o w).committed w.returned

  opened-entry :
      (o : Bytes) (rows : List (Bytes × J))
      → entry_of is_object empty o (opened is_object empty rows)
        ≡ record { current = at o rows empty; committed = at o rows empty; revision = 0 }
  unfolding opened at
  opened-entry o [] = refl
  opened-entry o ((key, d) ∷ rows) = elim (Bool-cases (same key o)) [
    | inl e ↦ rw e refl
    | inr e ↦ rw e (opened-entry o rows)
  ]

  pub opened-IsKept :
      (o : Bytes) (rows : List (Bytes × J)) → IsKept 0 o (opened is_object empty rows)
  unfolding opened AreBehind writes_of caught_up
  opened-IsKept o rows =
      let p = opened-entry o rows in
      record {
        bound = rw p (omega arith);
        behind = rw p refl;
        stored = ap (λ (e : Entry J). e.committed) (sym p);
      }

  -- A write of the owner is numbered anew and becomes the latest one.
  abbrev numbered : J → Entry J → Entry J
  numbered d entry = record {
    current = d;
    committed = entry.committed;
    revision = (entry.revision + 1) % 2 ^ 64;
  }

  abbrev submitted : Bytes → J → World J → World J
  submitted owner d w = record w {
    entries = put owner (numbered d (entry_of is_object empty owner w)) w.entries;
    queue =
        w.queue
        ++ record {
          owner = owner;
          document = d;
          revision = (numbered d (entry_of is_object empty owner w)).revision;
        }
          ∷ [];
  }

  outstanding-submitted :
      (owner o : Bytes) (d : J) (w : World J)
      → writes_of o (outstanding (submitted owner d w))
        ≡ writes_of o (outstanding w)
          ++ writes_of o (
              record {
                owner = owner;
                document = d;
                revision = (numbered d (entry_of is_object empty owner w)).revision;
              }
              ∷ [])
  outstanding-submitted owner o d w =
      ap (writes_of o) (sym (append_assoc (writes w.returned) w.queue _))
      ∙ writes_of-append o (outstanding w) _

  submitted_own-IsKept :
      (n : ℕ) (owner : Bytes) (d : J) (w : World J)
      → suc n < 2 ^ 64
      → IsKept n owner w
      → IsKept (suc n) owner (submitted owner d w)
  unfolding writes_of
  submitted_own-IsKept n owner d w m h =
      let e = entry_of is_object empty owner w in
      let f = same_refl owner in
      let p : entry_of is_object empty owner (submitted owner d w) ≡ numbered d e =
        at-put owner owner (numbered d e) (new_entry is_object empty) w.entries ∙ rw f refl in
      let r : (numbered d e).revision ≡ suc e.revision = omega (arith, h.bound, m) in
      record {
        bound = rw (p, r) (omega (arith, h.bound));
        behind =
            rw (p, outstanding-submitted owner owner d w, f)
              (AreBehind-append e (numbered d e) owner (writes_of owner (outstanding w))
                (omega (arith, r)) h.behind);
        stored = rw p h.stored;
      }

  submitted-IsKept :
      (n : ℕ) (owner o : Bytes) (d : J) (w : World J)
      → suc n < 2 ^ 64
      → IsKept n o w
      → IsKept (suc n) o (submitted owner d w)
  unfolding writes_of
  submitted-IsKept n owner o d w m h =
      let e = numbered d (entry_of is_object empty owner w) in
      elim (Bool-cases (same owner o)) [
        | inl f ↦
            let g = same-eq owner o f in
            subst (λ x. IsKept (suc n) x (submitted owner d w)) g
              (submitted_own-IsKept n owner d w m (subst (λ x. IsKept n x w) (sym g) h))
        | inr f ↦
            let p : entry_of is_object empty o (submitted owner d w)
                ≡ entry_of is_object empty o w =
              at-put owner o e (new_entry is_object empty) w.entries ∙ rw f refl in
            let q : writes_of o (outstanding (submitted owner d w)) ≡ writes_of o (outstanding w) =
              outstanding-submitted owner o d w ∙ rw f (append-nil _) in
            record {
              bound = rw p (omega (arith, h.bound));
              behind = rw (p, q) h.behind;
              stored = rw p h.stored;
            }
      ]

  pub write-IsKept :
      (n : ℕ) (owner o : Bytes) (d : J) (w : World J)
      → suc n < 2 ^ 64
      → IsKept n o w
      → IsKept (suc n) o (write is_object empty owner d w)
  unfolding write
  write-IsKept n owner o d w m h = elim (Bool-cases (is_object d)) [
    | inl e ↦ rw (write, e) (submitted-IsKept n owner o d w m h)
    | inr e ↦
        rw (write, e)
          (record { bound = omega (arith, h.bound); behind = h.behind; stored = h.stored })
  ]

  -- The worker turns a waiting write into one with a result, and its row.
  abbrev pub worked : Write J → List (Write J) → Result (Unit {0}) → World J → World J
  worked x rest result w = record w {
    queue = rest;
    returned = w.returned ++ (x, result) ∷ [];
    rows = row_after is_object empty x result w.rows;
  }

  row_after-at :
      (o : Bytes) (x : Write J) (result : Result (Unit {0})) (rows : List (Bytes × J))
      → at o (row_after is_object empty x result rows) empty
        ≡ (if same x.owner o then after x result (at o rows empty) else at o rows empty)
  row_after-at o x (success u) rows = at-put x.owner o x.document empty rows
  row_after-at o x (failure e) rows = elim (Bool-cases (same x.owner o)) [
    | inl f ↦ rw f refl
    | inr f ↦ rw f refl
  ]

  pub worked-IsKept :
      (n : ℕ) (o : Bytes) (x : Write J) (rest : List (Write J)) (result : Result (Unit {0}))
      (w : World J)
      → w.queue ≡ x ∷ rest
      → IsKept n o w
      → IsKept (suc n) o (worked x rest result w)
  unfolding caught_up
  worked-IsKept n o x rest result w q h =
      let c = (entry_of is_object empty o w).committed in
      let p : outstanding (worked x rest result w) ≡ outstanding w =
        ap (λ (l : List (Write J)). l ++ rest) (writes-append w.returned ((x, result) ∷ []))
        ∙ append_assoc (writes w.returned) (x ∷ []) rest
        ∙ ap (λ (l : List (Write J)). writes w.returned ++ l) (sym q) in
      record {
        bound = omega (arith, h.bound);
        behind = rw p h.behind;
        stored =
            row_after-at o x result w.rows
            ∙ ap (λ (d : J). if same x.owner o then after x result d else d) h.stored
            ∙ sym (caught_up-append o c w.returned ((x, result) ∷ []));
      }
