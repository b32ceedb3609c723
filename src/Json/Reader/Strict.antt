-- ===== src/Json/Reader/Strict.antt =====
-- Reading the declared fields and finishing is the verdict of `Kinds`.
use Prim.Native.String.{String}
use package.text.Mathlib.Text.{◌==◌ as str_eq}
use package.text.Mathlib.TextEquality.{eq_iff}
use workpane.Prelude.{
  ◌≡◌, refl, sym, ◌∙◌, ap, subst, inl, inr, Bool-cases, ◌==◌, length, ==_iff, true, ◌||◌, List, [],
  ◌∷◌, Option, none, some, arith,
}
use workpane.Result.{Error}
use workpane.Json.Values.{Values}
use workpane.Json.Reader.{has, holds, find, opened, not_object, finished, first_unknown, finish}
use workpane.Json.Reader.Kinds.{
  Field, run, problem, first_problem, names, or_else, judged, verdict, surplus, first_undeclared,
  refused_at, wrong, refusal, decoded_refusal,
}
use workpane.Json.Reader.Judging.{first_unknown-names, decoded_refusal-eq}
use workpane.Json.Reader.Steps.{reader, counted, step_kind-reader, run-failing}
use workpane.Json.Reader.Counting.{
  AreDistinct, AreAmong, holds-add, AreDistinct-add, AreAmong-length,
}

module _ {J : Type 0} where
  keys : List (String × J) → List String
  keys [] = []
  keys ((key, x) ∷ rest) = key ∷ keys rest

  length-keys : (fields : List (String × J)) → length (keys fields) ≡ length fields
  unfolding keys
  length-keys [] = refl
  length-keys ((key, x) ∷ rest) = ground (arith, length-keys rest)

  holds-keys :
      (k : String) (fields : List (String × J)) → holds k (keys fields) ≡ has (find k fields)
  unfolding keys holds find
  holds-keys k [] = refl
  holds-keys k ((key, x) ∷ rest) = elim (Bool-cases (str_eq key k)) [
    | inl e ↦ rw e refl
    | inr e ↦ rw e (holds-keys k rest)
  ]

module _ {J R : Type 0} (v : Values J R) where
  -- Which field is the first unknown one depends only on which keys of the object are known.
  first_unknown-eq :
      (known others : List String) (fields : List (String × J))
      → ((k : String) → holds k (keys fields) ≡ true → holds k known ≡ holds k others)
      → first_unknown v known fields ≡ first_unknown v others fields
  unfolding first_unknown keys holds
  first_unknown-eq known others [] h = refl
  first_unknown-eq known others ((key, x) ∷ rest) h =
      let q = h key (ground (arith, (eq_iff key key).1 refl)) in
      let r = first_unknown-eq known others rest (λ k i. h k (ground arith)) in
      elim (Bool-cases (holds key others)) [ inl e ↦ rw (q, e) r | inr e ↦ rw (q, e) refl ]

  first_unknown-none :
      (known : List String) (fields : List (String × J))
      → AreAmong (keys fields) known
      → first_unknown v known fields ≡ none
  unfolding first_unknown keys holds
  first_unknown-none known [] h = refl
  first_unknown-none known ((key, x) ∷ rest) h =
      rw (h key (ground (arith, (eq_iff key key).1 refl)))
        (first_unknown-none known rest (λ k i. h k (ground arith)))

  module _ (value : J) (context : String) where
    -- The keys that are remembered after the reads.
    collect : List (Field R) → List String → List String
    collect [] seen = seen
    collect (f ∷ fs) seen = collect fs (counted v f.key (find f.key (v.fields value)) seen)

    abbrev TailReader : List (Field R) → List String → Option Error → Type 0
    TailReader fs seen none =
        run v fs (reader v value context none seen) ≡ reader v value context none (collect fs seen)
    TailReader fs seen (some e) =
        (after : List String) × (run v fs (reader v value context none seen)
          ≡ reader v value context (some e) after)

    TailReader-cons :
        (f : Field R) (fs : List (Field R)) (seen : List String) (p later : Option Error)
        → run v (f ∷ fs) (reader v value context none seen)
          ≡ run v fs (reader v value context p (counted v f.key (find f.key (v.fields value)) seen))
        → TailReader fs (counted v f.key (find f.key (v.fields value)) seen) later
        → TailReader (f ∷ fs) seen (or_else p later)
    unfolding collect
    TailReader-cons f fs seen none none e h = e ∙ h
    TailReader-cons f fs seen none (some x) e (after, h) = (after, e ∙ h)
    TailReader-cons f fs seen (some x) later e h = (
      counted v f.key (find f.key (v.fields value)) seen,
      e ∙ run-failing v value context fs x (counted v f.key (find f.key (v.fields value)) seen),
    )

    -- What is wrong with a field is what its kind complains of.
    problem-eq :
        (f : Field R) (o : Option J)
        → refused_at v context f.key (wrong v f.presence (decoded_refusal v f.kind) o)
          ≡ refused_at v context f.key (wrong v f.presence (refusal v f.kind) o)
    problem-eq f none = refl
    problem-eq f (some x) = ap (refused_at v context f.key) (decoded_refusal-eq v f.kind x)

    run-reader :
        v.is_object value ≡ true
        → (fs : List (Field R)) (seen : List String)
        → TailReader fs seen (first_problem v value context fs)
    unfolding run first_problem problem collect
    run-reader o [] seen = refl
    run-reader o (f ∷ fs) seen =
        TailReader-cons f fs seen (problem v value context f) (first_problem v value context fs)
          (ap (run v fs) (
            step_kind-reader v value context o f.kind f.key f.presence seen
            ∙ ap
                (λ p. reader v value context p (counted v f.key (find f.key (v.fields value)) seen))
                (problem-eq f (find f.key (v.fields value)))))
          (run-reader o fs (counted v f.key (find f.key (v.fields value)) seen))

    counted-AreDistinct :
        (key : String) (o : Option J) (seen : List String)
        → AreDistinct seen
        → AreDistinct (counted v key o seen)
    counted-AreDistinct key none seen d = d
    counted-AreDistinct key (some x) seen d = AreDistinct-add key seen d

    collect-AreDistinct :
        (fs : List (Field R)) (seen : List String)
        → AreDistinct seen
        → AreDistinct (collect fs seen)
    unfolding collect
    collect-AreDistinct [] seen d = d
    collect-AreDistinct (f ∷ fs) seen d =
        collect-AreDistinct fs (counted v f.key (find f.key (v.fields value)) seen)
          (counted-AreDistinct f.key (find f.key (v.fields value)) seen d)

    counted-AreAmong :
        (key : String) (o : Option J) (seen : List String)
        → find key (v.fields value) ≡ o
        → AreAmong seen (keys (v.fields value))
        → AreAmong (counted v key o seen) (keys (v.fields value))
    counted-AreAmong key none seen e a k h = a k h
    counted-AreAmong key (some x) seen e a k h = elim (Bool-cases (str_eq key k)) [
      | inl q ↦
          let found =
            subst (λ (z : String). find z (v.fields value) ≡ some x) ((eq_iff key k).0 q) e in
          holds-keys k (v.fields value) ∙ ap has found
      | inr q ↦ a k (ground (arith, holds-add k key seen))
    ]

    collect-AreAmong :
        (fs : List (Field R)) (seen : List String)
        → AreAmong seen (keys (v.fields value))
        → AreAmong (collect fs seen) (keys (v.fields value))
    unfolding collect
    collect-AreAmong [] seen a = a
    collect-AreAmong (f ∷ fs) seen a =
        collect-AreAmong fs (counted v f.key (find f.key (v.fields value)) seen)
          (counted-AreAmong f.key (find f.key (v.fields value)) seen refl a)

    holds-counted :
        (k key : String) (o : Option J) (seen : List String)
        → find key (v.fields value) ≡ o
        → holds k (keys (v.fields value)) ≡ true
        → holds k (counted v key o seen) ≡ (str_eq key k || holds k seen)
    holds-counted k key none seen e h = elim (Bool-cases (str_eq key k)) [
      | inl q ↦
          let missing =
            subst (λ (z : String). find z (v.fields value) ≡ none) ((eq_iff key k).0 q) e in
          absurd (let p = sym h ∙ holds-keys k (v.fields value) ∙ ap has missing in cc)
      | inr q ↦ rw q refl
    ]
    holds-counted k key (some x) seen e h = holds-add k key seen

    holds-collect :
        (k : String) (fs : List (Field R)) (seen : List String)
        → holds k (keys (v.fields value)) ≡ true
        → holds k (collect fs seen) ≡ (holds k (names fs) || holds k seen)
    unfolding collect holds
    holds-collect k [] seen h = refl
    holds-collect k (f ∷ fs) seen h = ground (
      arith,
      holds-collect k fs (counted v f.key (find f.key (v.fields value)) seen) h,
      holds-counted k f.key (find f.key (v.fields value)) seen refl h,
    )

    finished-surplus : (o : Option String) → finished v context o ≡ surplus v context o
    finished-surplus none = refl
    finished-surplus (some key) = refl

    finish-collect :
        (fs : List (Field R))
        → finish v (reader v value context none (collect fs []))
          ≡ surplus v context (first_undeclared fs (v.fields value))
    unfolding finish holds
    finish-collect fs =
        let n = first_unknown-names v fs (v.fields value) in
        let d = collect-AreDistinct fs [] tt in
        let among = collect-AreAmong fs [] (λ k h. absurd (cc)) in
        let unknown =
          first_unknown-eq (collect fs []) (names fs) (v.fields value)
            (λ k h. ground (arith, holds-collect k fs [] h)) in
        elim (Bool-cases (length (collect fs []) == length (v.fields value))) [
          | inl e ↦
              let all = AreAmong-length (collect fs []) (keys (v.fields value)) d among (
                (==_iff (length (collect fs [])) (length (v.fields value))).0 e
                ∙ sym (length-keys (v.fields value))) in
              rw e (
                ap (surplus v context)
                  (sym (first_unknown-none (collect fs []) (v.fields value) all) ∙ unknown ∙ n))
          | inr e ↦ rw e (finished-surplus _ ∙ ap (surplus v context) (unknown ∙ n))
        ]

    finish-tail :
        (fs : List (Field R)) (p : Option Error)
        → TailReader fs [] p
        → finish v (run v fs (reader v value context none [])) ≡ judged v value context fs p
    unfolding finish
    finish-tail fs none h = ap (finish v) h ∙ finish-collect fs
    finish-tail fs (some e) (after, h) = ap (finish v) h

  -- Reading any list of declared fields from a reader of a value and finishing answers what the fields
  -- and the value deserve: that it is no object, else what is wrong with the first field of the list
  -- that is missing though required or does not fit its kind, else the first field of the object that is
  -- not declared, and success where there is none of these.
  pub finish-run :
      (value : J) (context : String) (fs : List (Field R))
      → finish v (run v fs (opened v value context)) ≡ verdict v value context fs
  unfolding opened verdict finish
  finish-run value context fs = elim (Bool-cases (v.is_object value)) [
    | inl o ↦ rw (o) (
        finish-tail value context fs (first_problem v value context fs)
          (run-reader value context o fs []))
    | inr o ↦ rw (o) (ap (finish v) (run-failing v value context fs (not_object context) []))
  ]
