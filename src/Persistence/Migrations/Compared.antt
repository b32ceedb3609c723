-- ===== src/Persistence/Migrations/Compared.antt =====
-- The comparison of the stored definitions with the expected ones, and the check of the foreign keys.
use workpane.Prelude.{
  ◌≡◌, refl, sym, ◌∙◌, ap, subst, Bool, true, false, List, [], ◌∷◌, ◌++◌, Option, none, some,
  Bool-cases, Option-cases, inl, inr, if◌then◌else◌, All,
}
use workpane.Prelude.Bytes.{Bytes, same, same-eq, starts_with, starts_with-rest}
use workpane.Result.{success}
use workpane.Persistence.SchemaText.{normalized}
use workpane.Persistence.Migrations.{
  lowered, own_rows, precedes, find, is_found, insert, emplace, collect, agrees, all_stored,
  all_expected,
}

-- A foreign key of a plugin leads to one of its own tables, whatever the case of the letters.
abbrev pub IsOwn : Bytes → Bytes × Bytes → Type 0
IsOwn prefix (owner, parent) = (rest : Bytes) × (lowered parent ≡ prefix ++ rest)

pub own_rows-All :
    (prefix : Bytes) (rows : List (Bytes × Bytes))
    → own_rows prefix rows ≡ success tt
    → All (IsOwn prefix) rows
unfolding own_rows
own_rows-All prefix [] h = tt
own_rows-All prefix ((owner, parent) ∷ rows) h =
    elim (Bool-cases (starts_with prefix (lowered parent))) [
      | inl e ↦ (starts_with-rest prefix (lowered parent) e, own_rows-All prefix rows (rw e at h))
      | inr e ↦ let h' = rw e at h in absurd (cc)
    ]

-- The first definition of a name among some rows, in normal form.
abbrev pub definition_of : Bytes → List (Bytes × Bytes) → Option Bytes
definition_of name [] = none
definition_of name ((key, sql) ∷ rows) =
    if same key name then some (normalized sql) else definition_of name rows

abbrev or_else : Option Bytes → Option Bytes → Option Bytes
or_else none later = later
or_else (some value) later = some value

or_else-none : (o : Option Bytes) → or_else o none ≡ o
or_else-none none = refl
or_else-none (some value) = refl

-- The lookup behind a first entry of another name.
find-rest :
    (key k v : Bytes) (l : List (Bytes × Bytes))
    → find key ((k, v) ∷ l) ≡ none
    → (same k key ≡ false) × (find key l ≡ none)
unfolding find
find-rest key k v l h = elim (Bool-cases (same k key)) [
  | inl e ↦ let h' = rw e at h in absurd (cc)
  | inr e ↦ (e, rw e at h)
]

find-insert :
    (name key value : Bytes) (l : List (Bytes × Bytes))
    → find key l ≡ none
    → find name (insert key value l)
      ≡ or_else (find name l) (if same key name then some value else none)
unfolding find insert
find-insert name key value [] h = refl
find-insert name key value ((k, v) ∷ l) h =
    let (d, h') = find-rest key k v l h in
    elim (Bool-cases (same key name)) [
      | inl e ↦
          let n = same-eq key name e in
          let d' : same k name ≡ false = subst (λ z. same k z ≡ false) n d in
          let g : find name l ≡ none = subst (λ z. find z l ≡ none) n h' in
          let i = find-insert name key value l h' in
          elim (Bool-cases (precedes key k)) [
            | inl p ↦ rw (p, e, d', g) refl
            | inr p ↦ rw (p, e, d') (i ∙ rw e refl)
          ]
      | inr e ↦
          let i = find-insert name key value l h' in
          elim (Bool-cases (precedes key k)) [
            | inl p ↦ rw (p, e) (sym (or_else-none _))
            | inr p ↦ elim (Bool-cases (same k name)) [
              | inl q ↦ rw (p, e, q) refl
              | inr q ↦ rw (p, e, q) (i ∙ rw e refl)
            ]
          ]
    ]

find-emplace :
    (name key value : Bytes) (l : List (Bytes × Bytes))
    → find name (emplace key value l)
      ≡ or_else (find name l) (if same key name then some value else none)
unfolding emplace
find-emplace name key value l = elim (Option-cases (find key l)) [
  | inl e ↦ rw e (find-insert name key value l e)
  | inr (v, e) ↦ rw e (elim (Bool-cases (same key name)) [
    | inl q ↦
        let g : find name l ≡ some v = subst (λ z. find z l ≡ some v) (same-eq key name q) e in
        rw g refl
    | inr q ↦ rw q (sym (or_else-none (find name l)))
  ])
]

or_else_assoc : (a b c : Option Bytes) → or_else (or_else a b) c ≡ or_else a (or_else b c)
or_else_assoc none b c = refl
or_else_assoc (some value) b c = refl

or_else-if :
    (c : Bool) (value : Bytes) (later : Option Bytes)
    → or_else (if c then some value else none) later ≡ (if c then some value else later)
or_else-if true value later = refl
or_else-if false value later = refl

pub find-collect :
    (name : Bytes) (rows found : List (Bytes × Bytes))
    → find name (collect rows found) ≡ or_else (find name found) (definition_of name rows)
unfolding collect
find-collect name [] found = sym (or_else-none (find name found))
find-collect name ((key, sql) ∷ rows) found =
    find-collect name rows (emplace key (normalized sql) found)
    ∙ ap (λ o. or_else o (definition_of name rows)) (find-emplace name key (normalized sql) found)
    ∙ or_else_assoc (find name found) (if same key name then some (normalized sql) else none)
        (definition_of name rows)
    ∙ ap (or_else (find name found))
        (or_else-if (same key name) (normalized sql) (definition_of name rows))

agrees-some :
    (definition : Bytes) (o : Option Bytes) → agrees definition o ≡ true → o ≡ some definition
agrees-some definition none h = cc
agrees-some definition (some value) h = ap some (same-eq value definition h)

all_stored-find :
    (stored expected : List (Bytes × Bytes)) (name value : Bytes)
    → all_stored stored expected ≡ success tt
    → find name expected ≡ some value
    → find name stored ≡ some value
unfolding all_stored find
all_stored-find stored [] name value h e = cc
all_stored-find stored ((key, definition) ∷ expected) name value h e =
    elim (Bool-cases (agrees definition (find key stored))) [
      | inr g ↦ let h' = rw g at h in absurd (cc)
      | inl g ↦ elim (Bool-cases (same key name)) [
        | inr q ↦ all_stored-find stored expected name value (rw g at h) (rw q at e)
        | inl q ↦
            let d : definition ≡ value = (let e' = rw q at e in cc) in
            subst (λ z. find z stored ≡ some value) (same-eq key name q)
              (agrees-some definition (find key stored) g ∙ ap some d)
      ]
    ]

all_expected-find :
    (expected stored : List (Bytes × Bytes)) (name value : Bytes)
    → all_expected expected stored ≡ success tt
    → find name stored ≡ some value
    → is_found (find name expected) ≡ true
unfolding all_expected find
all_expected-find expected [] name value h e = cc
all_expected-find expected ((key, definition) ∷ stored) name value h e =
    elim (Bool-cases (is_found (find key expected))) [
      | inr g ↦ let h' = rw g at h in absurd (cc)
      | inl g ↦ elim (Bool-cases (same key name)) [
        | inr q ↦ all_expected-find expected stored name value (rw g at h) (rw q at e)
        | inl q ↦ subst (λ z. is_found (find z expected) ≡ true) (same-eq key name q) g
      ]
    ]

-- Where both loops pass, a name has the same definition on both sides, or none on either.
pub all_stored-all_expected :
    (expected stored : List (Bytes × Bytes)) (name : Bytes)
    → all_stored stored expected ≡ success tt
    → all_expected expected stored ≡ success tt
    → find name expected ≡ find name stored
all_stored-all_expected expected stored name a b = elim (Option-cases (find name expected)) [
  | inr (v, e) ↦ e ∙ sym (all_stored-find stored expected name v a e)
  | inl e ↦ elim (Option-cases (find name stored)) [
    | inl g ↦ e ∙ sym g
    | inr (v, g) ↦
        let f = all_expected-find expected stored name v b g in
        absurd (let f' = sym f ∙ ap is_found e in cc)
  ]
]
