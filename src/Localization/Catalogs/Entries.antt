-- ===== src/Localization/Catalogs/Entries.antt =====
-- What is found under a key after merging and erasing.
use workpane.Prelude.{
  true, false, List, [], ◌∷◌, ◌++◌, Option, none, some, ◌≡◌, refl, sym, ◌∙◌, ap, subst,
  if◌then◌else◌, Bool-cases, Option-cases, inl, inr,
}
use workpane.Prelude.Bytes.{Bytes, same, same-eq, same_iff, starts_with}
use workpane.Localization.Catalogs.{
  Entries, Catalog, find_key, is_some, merge_entries, merge_locale, merge_catalog, erase_prefix,
  erase_everywhere, entry,
}

abbrev pub or_else {ℓ} : {V : Type ℓ} → Option V → Option V → Option V
or_else none b = b
or_else (some a) b = some a

or_else-none {ℓ} : {V : Type ℓ} (a : Option V) → or_else a none ≡ a
or_else-none none = refl
or_else-none (some a) = refl

or_else_assoc {ℓ} :
    {V : Type ℓ} (a b c : Option V) → or_else (or_else a b) c ≡ or_else a (or_else b c)
or_else_assoc none b c = refl
or_else_assoc (some a) b c = refl

module _ {V : Type 0} where
  pub find_key-append :
      (key : Bytes) (a b : List (Bytes × V))
      → find_key key (a ++ b) ≡ or_else (find_key key a) (find_key key b)
  unfolding find_key
  find_key-append key [] b = refl
  find_key-append key ((k, v) ∷ a) b = elim (Bool-cases (same k key)) [
    | inl e ↦ rw e refl
    | inr e ↦ rw e (find_key-append key a b)
  ]

-- The keys that were there keep their sentences.
find_key-insert :
    (key k t : Bytes) (merged : Entries)
    → find_key key (if is_some (find_key k merged) then merged else merged ++ (k, t) ∷ [])
      ≡ or_else (find_key key merged) (find_key key ((k, t) ∷ []))
unfolding find_key
find_key-insert key k t merged = elim (Option-cases (find_key k merged)) [
  | inl e ↦ rw e (find_key-append key merged ((k, t) ∷ []))
  | inr (u, e) ↦ elim (Bool-cases (same k key)) [
    | inl f ↦
        let g : find_key key merged ≡ some u =
          subst (λ (x : Bytes). find_key x merged ≡ some u) (same-eq k key f) e in
        rw (e, g) refl
    | inr f ↦ rw (e, f) (sym (or_else-none (find_key key merged)))
  ]
]

find_key-merge_entries :
    (key : Bytes) (merged entries : Entries)
    → find_key key (merge_entries merged entries)
      ≡ or_else (find_key key merged) (find_key key entries)
unfolding merge_entries find_key
find_key-merge_entries key merged [] = sym (or_else-none (find_key key merged))
find_key-merge_entries key merged ((k, t) ∷ rest) =
    find_key-merge_entries key
      (if is_some (find_key k merged) then merged else merged ++ (k, t) ∷ []) rest
    ∙ ap (λ (o : Option Bytes). or_else o (find_key key rest)) (find_key-insert key k t merged)
    ∙ or_else_assoc (find_key key merged) (find_key key ((k, t) ∷ [])) (find_key key rest)
    ∙ ap (λ (o : Option Bytes). or_else (find_key key merged) o)
        (sym (find_key-append key ((k, t) ∷ []) rest))

apart : (a b c : Bytes) → same a b ≡ false → same a c ≡ true → same b c ≡ false
apart a b c h g = elim (Bool-cases (same b c)) [
  | inl e ↦ let p = same-eq a c g ∙ sym (same-eq b c e) in let q = (same_iff a b).1 p in cc
  | inr e ↦ e
]

same-moved : (a b c : Bytes) → same a b ≡ true → same a c ≡ same b c
same-moved a b c h = ap (λ (x : Bytes). same x c) (same-eq a b h)

pub entry-merge_locale :
    (key locale l : Bytes) (entries : Entries) (locales : Catalog)
    → entry key locale (merge_locale l entries locales) ≡ (
        if same l locale
        then or_else (entry key locale locales) (find_key key entries)
        else entry key locale locales)
unfolding merge_locale entry find_key
entry-merge_locale key locale l entries [] = elim (Bool-cases (same l locale)) [
  | inl e ↦ rw e (find_key-merge_entries key [] entries)
  | inr e ↦ rw e refl
]
entry-merge_locale key locale l entries ((m, merged) ∷ rest) = elim (Bool-cases (same m l)) [
  | inl e ↦ elim (Bool-cases (same l locale)) [
    | inl f ↦
        let g = same-moved m l locale e ∙ f in
        rw (e, f, g) (find_key-merge_entries key merged entries)
    | inr f ↦ let g = same-moved m l locale e ∙ f in rw (e, f, g) refl
  ]
  | inr e ↦ elim (Bool-cases (same m locale)) [
    | inl g ↦ let f : same l locale ≡ false = apart m l locale e g in rw (e, f, g) refl
    | inr g ↦ rw (e, g) (entry-merge_locale key locale l entries rest)
  ]
]

-- No key stands twice.
abbrev pub IsMap : {V : Type 0} → List (Bytes × V) → Type 0
IsMap [] = Unit
IsMap ((key, v) ∷ rest) = (find_key key rest ≡ none) × IsMap rest

pub entry-merge_catalog :
    (key locale : Bytes) (locales catalog : Catalog)
    → IsMap catalog
    → entry key locale (merge_catalog locales catalog)
      ≡ or_else (entry key locale locales) (entry key locale catalog)
unfolding merge_catalog entry find_key
entry-merge_catalog key locale locales [] h = sym (or_else-none (entry key locale locales))
entry-merge_catalog key locale locales ((l, entries) ∷ rest) h =
    entry-merge_catalog key locale (merge_locale l entries locales) rest h.1
    ∙ ap (λ (o : Option Bytes). or_else o (entry key locale rest))
        (entry-merge_locale key locale l entries locales)
    ∙ elim (Bool-cases (same l locale)) [
      | inl e ↦
          let g : find_key locale rest ≡ none =
            subst (λ (x : Bytes). find_key x rest ≡ none) (same-eq l locale e) h.0 in
          rw (e, g) (or_else-none (or_else (entry key locale locales) (find_key key entries)))
      | inr e ↦ rw e refl
    ]

find_key-erase_prefix :
    (key prefix : Bytes) (entries : Entries)
    → find_key key (erase_prefix prefix entries)
      ≡ (if starts_with prefix key then none else find_key key entries)
unfolding find_key erase_prefix
find_key-erase_prefix key prefix [] = elim (Bool-cases (starts_with prefix key)) [
  | inl e ↦ rw e refl
  | inr e ↦ rw e refl
]
find_key-erase_prefix key prefix ((k, t) ∷ rest) = elim (Bool-cases (same k key)) [
  | inl b ↦
      let c = ap (λ (x : Bytes). starts_with prefix x) (same-eq k key b) in
      elim (Bool-cases (starts_with prefix k)) [
        | inl a ↦ let d = sym c ∙ a in rw (a, d) (rw d at (find_key-erase_prefix key prefix rest))
        | inr a ↦ let d = sym c ∙ a in rw (a, b, d) refl
      ]
  | inr b ↦ elim (Bool-cases (starts_with prefix k)) [
    | inl a ↦ rw (a, b) (find_key-erase_prefix key prefix rest)
    | inr a ↦ rw (a, b) (find_key-erase_prefix key prefix rest)
  ]
]

pub entry-erase_everywhere :
    (key locale prefix : Bytes) (locales : Catalog)
    → entry key locale (erase_everywhere prefix locales)
      ≡ (if starts_with prefix key then none else entry key locale locales)
unfolding erase_everywhere entry find_key
entry-erase_everywhere key locale prefix [] = elim (Bool-cases (starts_with prefix key)) [
  | inl e ↦ rw e refl
  | inr e ↦ rw e refl
]
entry-erase_everywhere key locale prefix ((l, entries) ∷ rest) = elim (Bool-cases (same l locale)) [
  | inl e ↦ rw e (find_key-erase_prefix key prefix entries)
  | inr e ↦ rw e (entry-erase_everywhere key locale prefix rest)
]
