-- ===== src/Localization/Catalogs/Sentences.antt =====
-- The sentences that are found while owners register and unregister their catalogs.
use workpane.Prelude.{
  true, false, List, [], ◌∷◌, Option, none, some, ◌≡◌, refl, sym, ◌∙◌, ap, Bool-cases, Option-cases,
  inl, inr,
}
use workpane.Prelude.Bytes.{Bytes, same_refl, starts_with}
use workpane.Result.{success, Result-cases}
use workpane.Localization.Words.{valid_owner, english, supported_language, base_language}
use workpane.Localization.Catalogs.{
  Entries, Catalog, Localization, find_key, register_catalog, unregister_catalog, entry, first_of,
  lookup, prefix_of,
}
use workpane.Localization.Catalogs.Entries.{or_else, IsMap}
use workpane.Localization.Catalogs.Registration.{
  Checked, registered, registered-entry, registered-failure, unregistered-entry,
}

-- Owners have their own prefixes, and no sentence is left of a valid owner that is not registered.
pub record IsKept (s : Localization) : Type 0 where
  pub prefixes :
      (owner prefix : Bytes) → find_key owner s.owners ≡ some prefix → prefix ≡ prefix_of owner
  pub orphans :
      (owner key locale : Bytes)
      → valid_owner owner ≡ true
      → find_key owner s.owners ≡ none
      → starts_with (prefix_of owner) key ≡ true
      → entry key locale s.locales ≡ none
  pub supported : supported_language s.language ≡ true

first_of-eq :
    (key : Bytes) (candidates : List Bytes) (a b : Catalog)
    → ((locale : Bytes) → entry key locale a ≡ entry key locale b)
    → first_of key candidates a ≡ first_of key candidates b
unfolding first_of
first_of-eq key [] a b h = refl
first_of-eq key (candidate ∷ rest) a b h = elim (Option-cases (entry key candidate b)) [
  | inl e ↦ let f = h candidate ∙ e in rw (e, f, first_of) (first_of-eq key rest a b h)
  | inr (t, e) ↦ let f = h candidate ∙ e in rw (e, f, first_of) refl
]

lookup-eq :
    (key : Bytes) (s s' : Localization)
    → s'.language ≡ s.language
    → ((locale : Bytes) → entry key locale s'.locales ≡ entry key locale s.locales)
    → lookup key s' ≡ lookup key s
unfolding lookup
lookup-eq key s s' e h =
    ap (λ (l : Bytes). first_of key (l ∷ base_language l ∷ english ∷ []) s'.locales) e
    ∙ first_of-eq key (s.language ∷ base_language s.language ∷ english ∷ []) s'.locales s.locales h

not_own :
    (owner key locale : Bytes) (catalog : Catalog) (s : Localization)
    → Checked owner catalog s
    → starts_with (prefix_of owner) key ≡ false
    → entry key locale catalog ≡ none
not_own owner key locale catalog s c f = elim (Option-cases (entry key locale catalog)) [
  | inl e ↦ e
  | inr (t, e) ↦ let g = c.own locale key t e in absurd (cc)
]

or_else-none_right {ℓ} : {V : Type ℓ} (a : Option V) → or_else a none ≡ a
or_else-none_right none = refl
or_else-none_right (some a) = refl

-- A registration, successful or refused, changes no sentence outside its owner's prefix.
pub lookup-register_catalog :
    (owner : Bytes) (catalog : Catalog) (s : Localization) (key : Bytes)
    → IsMap catalog
    → starts_with (prefix_of owner) key ≡ false
    → lookup key (register_catalog owner catalog s).0 ≡ lookup key s
lookup-register_catalog owner catalog s key m f =
    elim (Result-cases (register_catalog owner catalog s).1) [
      | inl (u, e) ↦
          let (c, o, l, h) = registered-entry owner catalog s m e in
          lookup-eq key s (registered owner catalog s) l (λ locale.
            h key locale
            ∙ ap (λ (x : Option Bytes). or_else (entry key locale s.locales) x)
                (not_own owner key locale catalog s c f)
            ∙ or_else-none_right (entry key locale s.locales))
      | inr (x, e) ↦
          ap (λ (w : Localization). lookup key w) (registered-failure owner catalog s x e)
    ]

-- Once a catalog is registered, every key that it spells in the selected language is found with its text.
pub lookup-registered :
    (owner : Bytes) (catalog : Catalog) (s : Localization) (key t : Bytes)
    → IsKept s
    → IsMap catalog
    → (register_catalog owner catalog s).1 ≡ success tt
    → entry key s.language catalog ≡ some t
    → lookup key (register_catalog owner catalog s).0 ≡ some t
unfolding lookup first_of
lookup-registered owner catalog s key t k m e f =
    let (c, o, l, h) = registered-entry owner catalog s m e in
    let g = k.orphans owner key s.language c.is_valid c.fresh (c.own s.language key t f) in
    let p : entry key s.language (registered owner catalog s).locales ≡ some t =
      h key s.language ∙ rw (g, f) refl in
    rw (l, p, first_of) refl

-- A catalog that is registered and taken back leaves every sentence as it was before.
pub lookup-unregister-register :
    (owner : Bytes) (catalog : Catalog) (s : Localization) (key : Bytes)
    → IsKept s
    → IsMap catalog
    → (register_catalog owner catalog s).1 ≡ success tt
    → lookup key (unregister_catalog owner (register_catalog owner catalog s).0) ≡ lookup key s
unfolding find_key
lookup-unregister-register owner catalog s key k m e =
    let (c, o, l, h) = registered-entry owner catalog s m e in
    let own : find_key owner (registered owner catalog s).owners ≡ some (prefix_of owner) =
      ap (λ (x : Entries). find_key owner x) o ∙ rw (same_refl owner) refl in
    let (o', l', h') = unregistered-entry owner (registered owner catalog s) own in
    lookup-eq key s (unregister_catalog owner (registered owner catalog s)) (l' ∙ l) (λ locale.
      h' key locale ∙ elim (Bool-cases (starts_with (prefix_of owner) key)) [
        | inl f ↦ rw f (sym (k.orphans owner key locale c.is_valid c.fresh f))
        | inr f ↦ rw f (
            h key locale
            ∙ ap (λ (x : Option Bytes). or_else (entry key locale s.locales) x)
                (not_own owner key locale catalog s c f)
            ∙ or_else-none_right (entry key locale s.locales))
      ])
