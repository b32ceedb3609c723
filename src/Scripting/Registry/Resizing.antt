-- ===== src/Scripting/Registry/Resizing.antt =====
-- A band that is resized keeps its position; what any operations of the host on the registry keep.
use workpane.Prelude.{
  ◌≡◌, refl, if◌then◌else◌, sym, ap, subst, List, [], ◌∷◌, ◌++◌, map, none, some, Bool-cases,
  Option-cases, inl, inr, arith,
}
use workpane.Prelude.Int.{ℤ}
use workpane.Prelude.Bytes.{Bytes, same}
use workpane.Result.{success}
use workpane.Scripting.Registry.{
  BandItem, PluginManifest, navigation_place, band_place, navigation, bands, add, remove,
  resize_bands, resize_plugins, resize_band,
}
use workpane.Scripting.Registry.Apart.{AreApart}
use workpane.Scripting.Registry.Consistent.{
  IsConsistent, add-IsConsistent, remove-IsConsistent, map-append,
}

resize_bands-places :
    (item : Bytes) (height : ℤ) (l : List BandItem) {l' : List BandItem}
    → resize_bands item height l ≡ some l'
    → map band_place l' ≡ map band_place l
unfolding resize_bands
resize_bands-places item height [] h = cc
resize_bands-places item height (band ∷ rest) {l' = l'} h = elim (Bool-cases (same band.id item)) [
  | inl t ↦ let q : l' ≡ record band { height = height } ∷ rest = ground arith in rw q refl
  | inr f ↦ elim (Option-cases (resize_bands item height rest)) [
    | inl e ↦ ground arith
    | inr (changed, e) ↦
        let q : l' ≡ band ∷ changed = ground arith in
        rw q (ap (λ zs. band_place band ∷ zs) (resize_bands-places item height rest e))
  ]
]

module _ {X Y : Type 0} where
  -- Two registries with the same identifiers and positions.
  record IsAlike (l' l : List (PluginManifest X Y)) : Type 0 where
    ids : map (λ m. m.id) l' ≡ map (λ m. m.id) l
    navigation_eq : navigation l' ≡ navigation l
    places : map band_place (bands l') ≡ map band_place (bands l)

  resize_first :
      (m : PluginManifest X Y) (resized : List BandItem) (rest : List (PluginManifest X Y))
      → map band_place resized ≡ map band_place m.bands
      → IsAlike (record m { bands = resized } ∷ rest) (m ∷ rest)
  unfolding navigation bands
  resize_first m resized rest e = record {
    ids = refl;
    navigation_eq = refl;
    places =
        rw
          (
            map-append band_place resized (bands rest),
            map-append band_place m.bands (bands rest),
            e,
          )
          refl;
  }

  IsAlike-more :
      (m : PluginManifest X Y) {l' l : List (PluginManifest X Y)}
      → IsAlike l' l
      → IsAlike (m ∷ l') (m ∷ l)
  unfolding navigation bands
  IsAlike-more m {l' = l'} {l = l} a = record {
    ids = ap (λ zs. m.id ∷ zs) a.ids;
    navigation_eq = ap (λ zs. m.navigation ++ zs) a.navigation_eq;
    places =
        rw
          (
            map-append band_place m.bands (bands l'),
            map-append band_place m.bands (bands l),
            a.places,
          )
          refl;
  }

  own_places :
      (m : PluginManifest X Y) (id item : Bytes) (height : ℤ) {resized : List BandItem}
      → (if same m.id id then resize_bands item height m.bands else none) ≡ some resized
      → map band_place resized ≡ map band_place m.bands
  own_places m id item height e = resize_bands-places item height m.bands (ground arith)

  resized-some :
      (to_string : ℤ → Bytes) (id item : Bytes) (height : ℤ) (l : List (PluginManifest X Y))
      {l' : List (PluginManifest X Y)}
      → resize_band to_string id item height l ≡ success l'
      → resize_plugins id item height l ≡ some l'
  unfolding resize_band
  resized-some to_string id item height l h =
      elim (Option-cases (resize_plugins id item height l)) [
        | inl e ↦ ground arith
        | inr (changed, e) ↦ ground arith
      ]

  resize_plugins-IsAlike :
      (id item : Bytes) (height : ℤ) (l : List (PluginManifest X Y))
      {l' : List (PluginManifest X Y)}
      → resize_plugins id item height l ≡ some l'
      → IsAlike l' l
  unfolding resize_plugins
  resize_plugins-IsAlike id item height [] h = cc
  resize_plugins-IsAlike id item height (m ∷ rest) {l' = l'} h =
      elim (Option-cases (if same m.id id then resize_bands item height m.bands else none)) [
        | inl e ↦ elim (Option-cases (resize_plugins id item height rest)) [
          | inl n ↦ absurd (ground arith)
          | inr (changed, k) ↦
              let q : l' ≡ m ∷ changed = ground arith in
              rw q (IsAlike-more m (resize_plugins-IsAlike id item height rest k))
        ]
        | inr (resized, e) ↦
            let q : l' ≡ record m { bands = resized } ∷ rest = ground arith in
            rw q (resize_first m resized rest (own_places m id item height e))
      ]

  resize_band-IsConsistent :
      (to_string : ℤ → Bytes) (id item : Bytes) (height : ℤ) (l : List (PluginManifest X Y))
      {l' : List (PluginManifest X Y)}
      → resize_band to_string id item height l ≡ success l'
      → IsConsistent l
      → IsConsistent l'
  unfolding resize_band
  resize_band-IsConsistent to_string id item height l {l' = l'} h c =
      let a : IsAlike l' l =
        resize_plugins-IsAlike id item height l (resized-some to_string id item height l h) in
      record {
        ids = subst AreApart (sym a.ids) c.ids;
        navigation_apart =
            subst (λ xs. AreApart (map navigation_place xs)) (sym a.navigation_eq)
              c.navigation_apart;
        bands_apart = subst AreApart (sym a.places) c.bands_apart;
      }

  -- What the host does with a registry; an operation that is refused changes nothing.
  pub data Kept (to_string : ℤ → Bytes) : List (PluginManifest X Y) → Type 0 where
    started : Kept to_string []
    added :
        {l l' : List (PluginManifest X Y)} (m : PluginManifest X Y)
        → Kept to_string l
        → add m l ≡ success l'
        → Kept to_string l'
    removed :
        {l : List (PluginManifest X Y)} (id : Bytes)
        → Kept to_string l
        → Kept to_string (remove id l)
    resized :
        {l l' : List (PluginManifest X Y)} (id item : Bytes) (height : ℤ)
        → Kept to_string l
        → resize_band to_string id item height l ≡ success l'
        → Kept to_string l'

  -- After any additions that succeed, removals, and resizes of bands that succeed, from the empty registry, no
  -- two plugins share an identifier, no two destinations a position and no two bands a position.
  pub Kept-IsConsistent :
      {to_string : ℤ → Bytes} {l : List (PluginManifest X Y)} → Kept to_string l → IsConsistent l
  unfolding navigation bands
  Kept-IsConsistent started = record { ids = tt; navigation_apart = tt; bands_apart = tt }
  Kept-IsConsistent (added {l = l} m k h) = add-IsConsistent m l h (Kept-IsConsistent k)
  Kept-IsConsistent (removed {l = l} id k) = remove-IsConsistent id l (Kept-IsConsistent k)
  Kept-IsConsistent {to_string = to_string} (resized {l = l} id item height k h) =
      resize_band-IsConsistent to_string id item height l h (Kept-IsConsistent k)
