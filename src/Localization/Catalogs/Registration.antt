-- ===== src/Localization/Catalogs/Registration.antt =====
-- What a registration has checked, and what it and its end do to the entries.
use workpane.Prelude.{
  true, [], ◌∷◌, none, some, ◌≡◌, refl, subst, if◌then◌else◌, Bool-cases, Option-cases, inl, inr,
}
use workpane.Prelude.Bytes.{Bytes, same, same-eq, starts_with}
use workpane.Result.{Error, Result, success, failure, ◌>>◌, Result-cases}
use workpane.Localization.Words.{valid_owner, languages, english}
use workpane.Localization.Catalogs.{
  Entries, Catalog, Localization, find_key, entries_of, check_key, check_prefix, check_value,
  check_source, check_locale, check_owner, check_duplicate, check_languages, check_entries,
  check_missing, check_catalog, check_registration, prefix_of, register_catalog, unregister_catalog,
  erase_key, entry,
}
use workpane.Localization.Catalogs.Entries.{
  or_else, IsMap, entry-merge_catalog, entry-erase_everywhere,
}

check_prefix-success :
    (prefix key : Bytes) → check_prefix prefix key ≡ success tt → starts_with prefix key ≡ true
unfolding check_prefix
check_prefix-success prefix key h = elim (Bool-cases (starts_with prefix key)) [
  | inl e ↦ e
  | inr e ↦ let h' = rw e at h in absurd (cc)
]

check_owner-success : (owner : Bytes) → check_owner owner ≡ success tt → valid_owner owner ≡ true
unfolding check_owner
check_owner-success owner h = elim (Bool-cases (valid_owner owner)) [
  | inl e ↦ e
  | inr e ↦ let h' = rw e at h in absurd (cc)
]

check_duplicate-success :
    (owner : Bytes) (owners : Entries)
    → check_duplicate owner owners ≡ success tt
    → find_key owner owners ≡ none
unfolding check_duplicate
check_duplicate-success owner owners h = elim (Option-cases (find_key owner owners)) [
  | inl e ↦ e
  | inr (p, e) ↦ let h' = rw e at h in absurd (cc)
]

>>-success :
    (m n : Result (Unit {0})) (u : Unit {0})
    → (m >> n) ≡ success u
    → (m ≡ success tt) × (n ≡ success u)
>>-success (success v) n u h = (refl, h)
>>-success (failure e) n u h = cc

check_entries-prefix :
    (prefix : Bytes) (source : Entries) (locale : Bytes) (entries : Entries) (key t : Bytes)
    → check_entries prefix source locale entries ≡ success tt
    → find_key key entries ≡ some t
    → starts_with prefix key ≡ true
unfolding check_entries find_key
check_entries-prefix prefix source locale [] key t h e = cc
check_entries-prefix prefix source locale ((k, v) ∷ rest) key t h e =
    let (a, h₁) = >>-success (check_key k) _ tt h in
    let (b, h₂) = >>-success (check_prefix prefix k) _ tt h₁ in
    let (c, h₃) = >>-success (check_value locale k v) _ tt h₂ in
    let (d, h₄) = >>-success (check_source locale k v (find_key k source)) _ tt h₃ in
    elim (Bool-cases (same k key)) [
      | inl g ↦
          subst (λ (x : Bytes). starts_with prefix x ≡ true) (same-eq k key g)
            (check_prefix-success prefix k b)
      | inr g ↦ check_entries-prefix prefix source locale rest key t h₄ (rw g at e)
    ]

check_catalog-prefix :
    (prefix : Bytes) (source : Entries) (catalog : Catalog) (locale key t : Bytes)
    → check_catalog prefix source catalog ≡ success tt
    → entry key locale catalog ≡ some t
    → starts_with prefix key ≡ true
unfolding check_catalog entry find_key
check_catalog-prefix prefix source [] locale key t h e = cc
check_catalog-prefix prefix source ((l, entries) ∷ rest) locale key t h e =
    let (a, h₁) = >>-success (check_locale l) _ tt h in
    let (b, h₂) = >>-success (check_entries prefix source l entries) _ tt h₁ in
    let (c, h₃) = >>-success (check_missing l entries source) _ tt h₂ in
    elim (Bool-cases (same l locale)) [
      | inl g ↦ check_entries-prefix prefix source l entries key t b (rw g at e)
      | inr g ↦ check_catalog-prefix prefix source rest locale key t h₃ (rw g at e)
    ]

-- What a registration that is not refused has established.
pub record Checked (owner : Bytes) (catalog : Catalog) (s : Localization) : Type 0 where
  pub is_valid : valid_owner owner ≡ true
  pub fresh : find_key owner s.owners ≡ none
  pub own :
      (locale key t : Bytes)
      → entry key locale catalog ≡ some t
      → starts_with (prefix_of owner) key ≡ true

pub check_registration-Checked :
    (owner : Bytes) (catalog : Catalog) (s : Localization)
    → check_registration owner catalog s ≡ success tt
    → Checked owner catalog s
unfolding check_registration
check_registration-Checked owner catalog s h =
    let (a, h₁) = >>-success (check_owner owner) _ tt h in
    let (b, h₂) = >>-success (check_duplicate owner s.owners) _ tt h₁ in
    let (c, h₃) = >>-success (check_languages owner catalog languages) _ tt h₂ in
    record {
      is_valid = check_owner-success owner a;
      fresh = check_duplicate-success owner s.owners b;
      own = λ locale key t.
          check_catalog-prefix (prefix_of owner) (entries_of (find_key english catalog)) catalog
            locale key t h₃;
    }

-- The state that a successful registration leaves.
abbrev pub registered : Bytes → Catalog → Localization → Localization
registered owner catalog s = (register_catalog owner catalog s).0

pub registered-entry :
    (owner : Bytes) (catalog : Catalog) (s : Localization)
    → IsMap catalog
    → (register_catalog owner catalog s).1 ≡ success tt
    → Checked owner catalog s
      × ((registered owner catalog s).owners ≡ (owner, prefix_of owner) ∷ s.owners)
      × ((registered owner catalog s).language ≡ s.language)
      × ((key locale : Bytes)
          → entry key locale (registered owner catalog s).locales
            ≡ or_else (entry key locale s.locales) (entry key locale catalog))
unfolding register_catalog
registered-entry owner catalog s m h = elim (Result-cases (check_registration owner catalog s)) [
  | inl (u, e) ↦
      rw (e, register_catalog, registered)
        (
          check_registration-Checked owner catalog s e,
          refl,
          refl,
          λ key locale. entry-merge_catalog key locale s.locales catalog m,
        )
  | inr (x, e) ↦ let h' = rw (e, register_catalog) at h in absurd (cc)
]

pub registered-failure :
    (owner : Bytes) (catalog : Catalog) (s : Localization) (e : Error)
    → (register_catalog owner catalog s).1 ≡ failure e
    → registered owner catalog s ≡ s
unfolding register_catalog
registered-failure owner catalog s x h = elim (Result-cases (check_registration owner catalog s)) [
  | inl (u, e) ↦ let h' = rw (e, register_catalog) at h in absurd (cc)
  | inr (y, e) ↦ rw (e, register_catalog, registered) refl
]

-- What `unregisterCatalog` of an owner with its own prefix leaves.
pub unregistered-entry :
    (owner : Bytes) (s : Localization)
    → find_key owner s.owners ≡ some (prefix_of owner)
    → ((unregister_catalog owner s).owners ≡ erase_key owner s.owners)
      × ((unregister_catalog owner s).language ≡ s.language)
      × ((key locale : Bytes)
          → entry key locale (unregister_catalog owner s).locales
            ≡ (if starts_with (prefix_of owner) key then none else entry key locale s.locales))
unfolding unregister_catalog
unregistered-entry owner s e =
    rw (e, unregister_catalog)
      (refl, refl, λ key locale. entry-erase_everywhere key locale (prefix_of owner) s.locales)
