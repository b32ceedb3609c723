-- ===== src/Persistence/Preferences/Latest.antt =====
-- Entries and rows under a key, the outstanding writes of an entry, and what its results will commit.
use workpane.Prelude.{
  ◌<◌, ◌≡◌, refl, sym, ◌∙◌, ap, true, false, List, [], ◌∷◌, ◌++◌, Bool-cases, inl, inr,
  if◌then◌else◌, arith,
}
use workpane.Prelude.Bytes.{Bytes, same, same-eq, same_refl}
use workpane.Result.{Result, success, failure}
use workpane.Persistence.Preferences.{Entry, Write, at, put, belongs, without}
use workpane.Persistence.Preferences.Steps.{writes, writes_of, latest}

pub apart :
    (owner key other : Bytes) → key ≡ other → same key owner ≡ false → same owner other ≡ false
apart owner key other p e = elim (Bool-cases (same owner other)) [
  | inl f ↦
      let q = same-eq owner other f in
      let r : same key owner ≡ true = rw (p, q) (same_refl other) in cc
  | inr f ↦ f
]

module _ {A : Type 0} where
  pub at-put :
      (owner other : Bytes) (a d : A) (l : List (Bytes × A))
      → at other (put owner a l) d ≡ (if same owner other then a else at other l d)
  unfolding at put
  at-put owner other a d [] = refl
  at-put owner other a d ((key, b) ∷ rest) = elim (Bool-cases (same key owner)) [
    | inl e ↦
        let p = same-eq key owner e in
        elim (Bool-cases (same owner other)) [
          | inl f ↦ rw (e, p, f) refl
          | inr f ↦ rw (e, p, f) refl
        ]
    | inr e ↦ elim (Bool-cases (same key other)) [
      | inl f ↦
          let p = same-eq key other f in let n = apart owner key other p e in rw (e, f, n) refl
      | inr f ↦ rw (e, f) (at-put owner other a d rest)
    ]
  ]

  pub at-without :
      (owner plugin : Bytes) (d : A) (l : List (Bytes × A))
      → at owner (without plugin l) d ≡ (if belongs owner plugin then d else at owner l d)
  unfolding at without
  at-without owner plugin d [] = elim (Bool-cases (belongs owner plugin)) [
    | inl e ↦ rw e refl
    | inr e ↦ rw e refl
  ]
  at-without owner plugin d ((key, a) ∷ rest) = elim (Bool-cases (same key owner)) [
    | inl f ↦
        let p = same-eq key owner f in
        elim (Bool-cases (belongs owner plugin)) [
          | inl e ↦ rw (p, e) (at-without owner plugin d rest ∙ rw e refl)
          | inr e ↦ let g = same_refl owner in rw (p, e, g) refl
        ]
    | inr f ↦ elim (Bool-cases (belongs key plugin)) [
      | inl e ↦ rw (e, f) (at-without owner plugin d rest)
      | inr e ↦ rw (e, f) (at-without owner plugin d rest)
    ]
  ]

module _ {J : Type 0} where
  -- The outstanding writes of an entry: the last has its document and revision, the others older ones.
  unfoldable pub AreBehind : Entry J → List (Write J) → Type 0
  AreBehind e [] = e.current ≡ e.committed
  AreBehind e (x ∷ []) = (x.document ≡ e.current) × (x.revision ≡ e.revision)
  AreBehind e (x ∷ y ∷ l) = (x.revision < e.revision) × AreBehind e (y ∷ l)

  pub AreBehind-append :
      (e e' : Entry J) (owner : Bytes) (l : List (Write J))
      → e.revision < e'.revision
      → AreBehind e l
      → AreBehind e'
          (l ++ record { owner = owner; document = e'.current; revision = e'.revision } ∷ [])
  unfolding AreBehind
  AreBehind-append e e' owner [] n h = (refl, refl)
  AreBehind-append e e' owner (x ∷ []) n h = (omega (arith, h.1), (refl, refl))
  AreBehind-append e e' owner (x ∷ y ∷ l) n h =
      (omega (arith, h.0), AreBehind-append e e' owner (y ∷ l) n h.1)

  pub AreBehind-committed :
      (e : Entry J) (c : J) (x : Write J) (l : List (Write J))
      → AreBehind e (x ∷ l)
      → AreBehind (record e { committed = c }) (x ∷ l)
  unfolding AreBehind
  AreBehind-committed e c x [] h = h
  AreBehind-committed e c x (y ∷ l) h = (h.0, AreBehind-committed e c y l h.1)

  pub latest-AreBehind :
      (e : Entry J) (d : J) (x : Write J) (l : List (Write J))
      → AreBehind e (x ∷ l)
      → e.current ≡ latest d (x ∷ l)
  unfolding AreBehind
  latest-AreBehind e d x [] h = sym h.0
  latest-AreBehind e d x (y ∷ l) h = latest-AreBehind e x.document y l h.1

  pub writes_of-append :
      (o : Bytes) (xs ys : List (Write J))
      → writes_of o (xs ++ ys) ≡ writes_of o xs ++ writes_of o ys
  unfolding writes_of
  writes_of-append o [] ys = refl
  writes_of-append o (x ∷ xs) ys = elim (Bool-cases (same x.owner o)) [
    | inl e ↦ rw e (ap (λ (l : List (Write J)). x ∷ l) (writes_of-append o xs ys))
    | inr e ↦ rw e (writes_of-append o xs ys)
  ]

  pub writes-append :
      (xs ys : List (Write J × Result (Unit {0}))) → writes (xs ++ ys) ≡ writes xs ++ writes ys
  writes-append [] ys = refl
  writes-append ((x, r) ∷ xs) ys = ap (λ (l : List (Write J)). x ∷ l) (writes-append xs ys)

  abbrev pub after : Write J → Result (Unit {0}) → J → J
  after x (success u) d = x.document
  after x (failure e) d = d

  -- What the entry of an owner will have committed once the results that are back are delivered.
  unfoldable pub caught_up : Bytes → J → List (Write J × Result (Unit {0})) → J
  caught_up o d [] = d
  caught_up o d ((x, r) ∷ rest) =
      let passed = caught_up o d rest in
      let taken = caught_up o (after x r d) rest in if same x.owner o then taken else passed

  pub caught_up-append :
      (o : Bytes) (d : J) (xs ys : List (Write J × Result (Unit {0})))
      → caught_up o d (xs ++ ys) ≡ caught_up o (caught_up o d xs) ys
  unfolding caught_up
  caught_up-append o d [] ys = refl
  caught_up-append o d ((x, r) ∷ xs) ys = elim (Bool-cases (same x.owner o)) [
    | inl e ↦ rw e (caught_up-append o (after x r d) xs ys)
    | inr e ↦ rw e (caught_up-append o d xs ys)
  ]

  pub caught_up-none :
      (o : Bytes) (d : J) (xs : List (Write J × Result (Unit {0}))) (ys : List (Write J))
      → writes_of o (writes xs ++ ys) ≡ []
      → caught_up o d xs ≡ d
  unfolding caught_up writes_of
  caught_up-none o d [] ys h = refl
  caught_up-none o d ((x, r) ∷ xs) ys h = elim (Bool-cases (same x.owner o)) [
    | inl e ↦ let h' = rw e at h in absurd (cc)
    | inr e ↦ rw e (caught_up-none o d xs ys (rw e at h))
  ]
