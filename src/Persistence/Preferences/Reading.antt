-- ===== src/Persistence/Preferences/Reading.antt =====
-- What a reader of a preference store sees at any moment of a history.
use workpane.Prelude.{
  ℕ, zero, suc, ◌^◌, ◌<◌, ◌≡◌, ◌⊎◌, refl, sym, ◌∙◌, ap, subst, Bool, false, List, [], ◌∷◌, ◌++◌,
  Bool-cases, inl, inr, ◌==◌, ==_iff, arith,
}
use workpane.Prelude.Bytes.{Bytes, same, same-eq, same_refl}
use workpane.Result.{Result, success, failure}
use workpane.Persistence.Preferences.{
  Entry, Write, World, at, put, belongs, new_entry, opened, entry_of, document, work, settled,
  deliver, erase, discard, load,
}
use workpane.Persistence.Preferences.Steps.{
  writes, outstanding, writes_of, latest, Step, writing, working, delivering, erasing, discarding,
  Run, none_yet, step_to,
}
use workpane.Persistence.Preferences.Latest.{
  at-put, at-without, AreBehind, AreBehind-committed, latest-AreBehind, after, caught_up,
  caught_up-none,
}
use workpane.Persistence.Preferences.Keeping.{IsKept, opened-IsKept, write-IsKept, worked-IsKept}

module _ {J : Type 0} (is_object : J → Bool) (empty : J) where
  List-cases : {A : Type 0} (l : List A) → (l ≡ []) ⊎ ((x : A) × (rest : List A) × (l ≡ x ∷ rest))
  List-cases [] = inl refl
  List-cases (x ∷ rest) = inr (x, rest, refl)

  settled-committed :
      (x : Write J) (result : Result (Unit {0})) (e : Entry J)
      → (settled is_object empty x result e).committed ≡ after x result e.committed
  settled-committed x (success u) e = refl
  settled-committed x (failure err) e = elim (Bool-cases (x.revision == e.revision)) [
    | inl f ↦ rw f refl
    | inr f ↦ rw f refl
  ]

  settled-revision :
      (x : Write J) (result : Result (Unit {0})) (e : Entry J)
      → (settled is_object empty x result e).revision ≡ e.revision
  settled-revision x (success u) e = refl
  settled-revision x (failure err) e = elim (Bool-cases (x.revision == e.revision)) [
    | inl f ↦ rw f refl
    | inr f ↦ rw f refl
  ]

  -- The oldest outstanding write is delivered.
  settled-AreBehind :
      (x : Write J) (result : Result (Unit {0})) (e : Entry J) (l : List (Write J))
      → AreBehind e (x ∷ l)
      → AreBehind (settled is_object empty x result e) l
  unfolding AreBehind
  settled-AreBehind x (success u) e [] h = sym h.0
  settled-AreBehind x (success u) e (y ∷ l) h = AreBehind-committed e x.document y l h.1
  settled-AreBehind x (failure err) e [] h =
      let f = (==_iff x.revision e.revision).1 h.1 in rw f refl
  settled-AreBehind x (failure err) e (y ∷ l) h =
      let f : (x.revision == e.revision) ≡ false = ground (arith, h.0) in
      let g : settled is_object empty x (failure err) e ≡ e = rw f refl in
      subst (λ z. AreBehind z (y ∷ l)) (sym g) h.1

  abbrev delivered :
      Write J → Result (Unit {0}) → List (Write J × Result (Unit {0})) → World J → World J
  delivered x result rest w = record w {
    returned = rest;
    entries =
        put x.owner (settled is_object empty x result (entry_of is_object empty x.owner w))
          w.entries;
    answers = w.answers ++ (x.owner, result) ∷ [];
  }

  delivered_own-IsKept :
      (n : ℕ) (x : Write J) (result : Result (Unit {0})) (rest : List (Write J × Result (Unit {0})))
      (w : World J)
      → w.returned ≡ (x, result) ∷ rest
      → IsKept is_object empty n x.owner w
      → IsKept is_object empty (suc n) x.owner (delivered x result rest w)
  unfolding writes_of caught_up
  delivered_own-IsKept n x result rest w q h =
      let e = entry_of is_object empty x.owner w in
      let f = same_refl x.owner in
      let p : entry_of is_object empty x.owner (delivered x result rest w)
          ≡ settled is_object empty x result e =
        at-put x.owner x.owner (settled is_object empty x result e) (new_entry is_object empty)
          w.entries
        ∙ rw f refl in
      record {
        bound = rw (p, settled-revision x result e) (omega (arith, h.bound));
        behind = rw p (
            settled-AreBehind x result e (writes_of x.owner (writes rest ++ w.queue)) (
              subst (AreBehind e) (ap (λ l. writes_of x.owner (writes l ++ w.queue)) q ∙ rw f refl)
                h.behind));
        stored =
            rw (p, settled-committed x result e)
              (h.stored ∙ ap (caught_up x.owner e.committed) q ∙ rw f refl);
      }

  delivered_other-IsKept :
      (n : ℕ) (o : Bytes) (x : Write J) (result : Result (Unit {0}))
      (rest : List (Write J × Result (Unit {0}))) (w : World J)
      → same x.owner o ≡ false
      → w.returned ≡ (x, result) ∷ rest
      → IsKept is_object empty n o w
      → IsKept is_object empty (suc n) o (delivered x result rest w)
  unfolding writes_of caught_up
  delivered_other-IsKept n o x result rest w f q h =
      let e = entry_of is_object empty o w in
      let p : entry_of is_object empty o (delivered x result rest w) ≡ e =
        at-put x.owner o (settled is_object empty x result (entry_of is_object empty x.owner w))
          (new_entry is_object empty) w.entries
        ∙ rw f refl in
      record {
        bound = rw p (omega (arith, h.bound));
        behind = rw p (
            subst (AreBehind e) (ap (λ l. writes_of o (writes l ++ w.queue)) q ∙ rw f refl)
              h.behind);
        stored = rw p (h.stored ∙ ap (caught_up o e.committed) q ∙ rw f refl);
      }

  delivered-IsKept :
      (n : ℕ) (o : Bytes) (x : Write J) (result : Result (Unit {0}))
      (rest : List (Write J × Result (Unit {0}))) (w : World J)
      → w.returned ≡ (x, result) ∷ rest
      → IsKept is_object empty n o w
      → IsKept is_object empty (suc n) o (delivered x result rest w)
  delivered-IsKept n o x result rest w q h = elim (Bool-cases (same x.owner o)) [
    | inl f ↦
        let g = same-eq x.owner o f in
        subst (λ z. IsKept is_object empty (suc n) z (delivered x result rest w)) g
          (delivered_own-IsKept n x result rest w q
            (subst (λ z. IsKept is_object empty n z w) (sym g) h))
    | inr f ↦ delivered_other-IsKept n o x result rest w f q h
  ]

  later :
      (n : ℕ) (o : Bytes) (w : World J)
      → IsKept is_object empty n o w
      → IsKept is_object empty (suc n) o w
  later n o w h = record { bound = omega (arith, h.bound); behind = h.behind; stored = h.stored }

  erase-IsKept :
      (n : ℕ) (o plugin : Bytes) (w : World J)
      → belongs o plugin ≡ false
      → IsKept is_object empty n o w
      → IsKept is_object empty (suc n) o (erase is_object empty plugin w)
  unfolding erase
  erase-IsKept n o plugin w b h =
      let r = at-without o plugin empty w.rows in
      record { bound = omega (arith, h.bound); behind = h.behind; stored = rw (r, b) h.stored }

  discard-IsKept :
      (n : ℕ) (o plugin : Bytes) (w : World J)
      → belongs o plugin ≡ false
      → IsKept is_object empty n o w
      → IsKept is_object empty (suc n) o (discard is_object empty plugin w)
  unfolding discard
  discard-IsKept n o plugin w b h =
      let p : entry_of is_object empty o (discard is_object empty plugin w)
          ≡ entry_of is_object empty o w =
        at-without o plugin (new_entry is_object empty) w.entries ∙ rw b refl in
      record {
        bound = rw p (omega (arith, h.bound));
        behind = rw p h.behind;
        stored = rw p h.stored;
      }

  work-IsKept :
      (n : ℕ) (o : Bytes) (result : Result (Unit {0})) (w : World J)
      → IsKept is_object empty n o w
      → IsKept is_object empty (suc n) o (work is_object empty result w)
  unfolding work
  work-IsKept n o result w h = elim (List-cases w.queue) [
    | inl e ↦ rw (e, work) (later n o w h)
    | inr (x, rest, e) ↦ rw (e, work) (worked-IsKept is_object empty n o x rest result w e h)
  ]

  deliver-IsKept :
      (n : ℕ) (o : Bytes) (w : World J)
      → IsKept is_object empty n o w
      → IsKept is_object empty (suc n) o (deliver is_object empty w)
  unfolding deliver
  deliver-IsKept n o w h = elim (List-cases w.returned) [
    | inl e ↦ rw (e, deliver) (later n o w h)
    | inr ((x, result), rest, e) ↦ rw (e, deliver) (delivered-IsKept n o x result rest w e h)
  ]

  step-IsKept :
      (n : ℕ) (o : Bytes) (w w' : World J)
      → suc n < 2 ^ 64
      → Step is_object empty o w w'
      → IsKept is_object empty n o w
      → IsKept is_object empty (suc n) o w'
  step-IsKept n o w w' m (writing owner d) h = write-IsKept is_object empty n owner o d w m h
  step-IsKept n o w w' m (working result) h = work-IsKept n o result w h
  step-IsKept n o w w' m delivering h = deliver-IsKept n o w h
  step-IsKept n o w w' m (erasing plugin a) h = erase-IsKept n o plugin w a h
  step-IsKept n o w w' m (discarding plugin a) h = discard-IsKept n o plugin w a h

  run-IsKept :
      (n : ℕ) (o : Bytes) (rows : List (Bytes × J)) (w : World J)
      → n < 2 ^ 64
      → Run is_object empty o n (opened is_object empty rows) w
      → IsKept is_object empty n o w
  run-IsKept zero o rows w m none_yet = opened-IsKept is_object empty o rows
  run-IsKept (suc n) o rows w m (step_to {w' = w'} r s) =
      step-IsKept n o w' w m s (run-IsKept n o rows w' (omega (arith, m)) r)

  IsKept-latest :
      (n : ℕ) (o : Bytes) (w : World J) (l : List (Write J))
      → writes_of o (outstanding w) ≡ l
      → IsKept is_object empty n o w
      → document is_object empty o w ≡ latest (at o w.rows empty) l
  unfolding document AreBehind
  IsKept-latest n o w [] q h =
      let c = (entry_of is_object empty o w).committed in
      subst (AreBehind (entry_of is_object empty o w)) q h.behind
      ∙ sym (h.stored ∙ caught_up-none o c w.returned w.queue q)
  IsKept-latest n o w (x ∷ l) q h =
      latest-AreBehind (entry_of is_object empty o w) (at o w.rows empty) x l
        (subst (AreBehind (entry_of is_object empty o w)) q h.behind)

  -- At any moment of fewer than 2^64 steps from the start, in which calls, turns of the worker, whatever
  -- the database answers it, and completions follow each other in any order, and the rows and the entries
  -- of plugins that the owner does not belong to are erased and discarded at any moments, the document that
  -- an owner reads is that of the latest of its writes that are outstanding, and if there is none what its
  -- row in the database keeps, or the empty object where it has no row with an object.
  pub document-latest :
      (n : ℕ) (o : Bytes) (rows : List (Bytes × J)) (w : World J)
      → n < 2 ^ 64
      → Run is_object empty o n (opened is_object empty (load is_object empty rows)) w
      → document is_object empty o w ≡ latest (at o w.rows empty) (writes_of o (outstanding w))
  document-latest n o rows w m r =
      IsKept-latest n o w (writes_of o (outstanding w)) refl
        (run-IsKept n o (load is_object empty rows) w m r)
