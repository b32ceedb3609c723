-- ===== src/Scripting/Registry/Consistent.antt =====
-- The registry of the plugins keeps identifiers and positions apart.
use workpane.Prelude.{
  ◌≡◌, refl, sym, ◌∙◌, ap, subst, Bool, true, List, [], ◌∷◌, ◌++◌, map, append-nil, append_assoc,
  Option, none, some, Bool-cases, inl, inr, arith,
}
use workpane.Prelude.Int.{ℤ, pos, negsuc}
use workpane.Prelude.Bytes.{Bytes, same, same_refl}
use workpane.Result.{Error, Result, success, failure, ◌>>◌, >>=-eq-success}
use workpane.Scripting.Registry.{
  NavigationPlacement, primary, secondary, BandPlacement, top, bottom, PluginManifest,
  same_navigation_place, same_band_place, navigation_place, band_place, navigation_taken,
  band_taken, claimant, free, unique, claim, find, navigation, bands, add, remove,
}
use workpane.Scripting.Registry.Apart.{
  IsMissing, AreApart, IsWithin, finished, IsWithin-append, IsWithin-skip, AreApart-IsWithin,
  AreApart-append,
}

pub map-append_one :
    {A B : Type 0} (f : A → B) (xs : List A) (y : A) → map f (xs ++ y ∷ []) ≡ map f xs ++ f y ∷ []
map-append_one f [] y = refl
map-append_one f (x ∷ xs) y = ap (λ zs. f x ∷ zs) (map-append_one f xs y)

pub map-append :
    {A B : Type 0} (f : A → B) (xs ys : List A) → map f (xs ++ ys) ≡ map f xs ++ map f ys
map-append f [] ys = refl
map-append f (x ∷ xs) ys = ap (λ zs. f x ∷ zs) (map-append f xs ys)

same_navigation_place_refl : (p : NavigationPlacement × ℤ) → same_navigation_place p p ≡ true
same_navigation_place_refl (primary, pos n) = ground arith
same_navigation_place_refl (primary, negsuc n) = ground arith
same_navigation_place_refl (secondary, pos n) = ground arith
same_navigation_place_refl (secondary, negsuc n) = ground arith

same_band_place_refl : (p : BandPlacement × ℤ) → same_band_place p p ≡ true
same_band_place_refl (top, pos n) = ground arith
same_band_place_refl (top, negsuc n) = ground arith
same_band_place_refl (bottom, pos n) = ground arith
same_band_place_refl (bottom, negsuc n) = ground arith

module _ {A P : Type 0} (place : A → P) (same_place : P → P → Bool) (taken : A → A → Error)
    (reflexive : (p : P) → same_place p p ≡ true) where
  claimant-none :
      (p : P) (claimed : List A)
      → claimant place same_place taken p claimed ≡ none
      → IsMissing p (map place claimed)
  unfolding claimant
  claimant-none p [] h = tt
  claimant-none p (x ∷ claimed) h = (
    λ e.
        let t : same_place (place x) p ≡ true = ap (λ z. same_place z p) e ∙ reflexive p in
        ground arith,
    claimant-none p claimed (ground arith),
  )

  free-none : (item : A) (o : Option A) → free place same_place taken item o ≡ success tt → o ≡ none
  free-none item none h = refl
  free-none item (some existing) h = cc

  claim-AreApart :
      (claimed items : List A)
      → claim place same_place taken claimed items ≡ success tt
      → AreApart (map place claimed)
      → AreApart (map place (claimed ++ items))
  unfolding claim
  claim-AreApart claimed [] h a = rw (append-nil claimed) a
  claim-AreApart claimed (item ∷ rest) h a =
      let (u, f, next) =
        >>=-eq-success
          (free place same_place taken item (claimant place same_place taken (place item) claimed))
          _ h in
      let m = claimant-none (place item) claimed (free-none item _ f) in
      subst (λ xs. AreApart (map place xs)) (append_assoc claimed (item ∷ []) rest)
        (claim-AreApart (claimed ++ item ∷ []) rest next (
          subst AreApart (sym (map-append_one place claimed item))
            (AreApart-append (place item) (map place claimed) m a)))

chain-success :
    {A : Type 0} (r s t : Result (Unit {0})) (a : A) {b : A}
    → (r >> s >> t >> success a) ≡ success b
    → (r ≡ success tt) × (s ≡ success tt) × (t ≡ success tt) × (a ≡ b)
chain-success (success u) (success v) (success w) a h = (refl, refl, refl, cc)
chain-success (failure e) s t a h = cc
chain-success (success u) (failure e) t a h = cc
chain-success (success u) (success v) (failure e) a h = cc

module _ {X Y : Type 0} where
  -- The identifiers of the plugins and the positions of destinations and of bands are apart.
  pub record IsConsistent (plugins : List (PluginManifest X Y)) : Type 0 where
    pub ids : AreApart (map (λ m. m.id) plugins)
    pub navigation_apart : AreApart (map navigation_place (navigation plugins))
    pub bands_apart : AreApart (map band_place (bands plugins))

  find-none :
      (id : Bytes) (plugins : List (PluginManifest X Y))
      → find id plugins ≡ none
      → IsMissing id (map (λ m. m.id) plugins)
  unfolding find
  find-none id [] h = tt
  find-none id (m ∷ rest) h = (
    λ e. let t : same m.id id ≡ true = ap (λ z. same z id) e ∙ same_refl id in ground arith,
    find-none id rest (ground arith),
  )

  pub navigation-append :
      (plugins : List (PluginManifest X Y)) (m : PluginManifest X Y)
      → navigation (plugins ++ m ∷ []) ≡ navigation plugins ++ m.navigation
  unfolding navigation
  navigation-append [] m = append-nil m.navigation
  navigation-append (x ∷ plugins) m =
      ap (λ zs. x.navigation ++ zs) (navigation-append plugins m)
      ∙ sym (append_assoc x.navigation (navigation plugins) m.navigation)

  pub bands-append :
      (plugins : List (PluginManifest X Y)) (m : PluginManifest X Y)
      → bands (plugins ++ m ∷ []) ≡ bands plugins ++ m.bands
  unfolding bands
  bands-append [] m = append-nil m.bands
  bands-append (x ∷ plugins) m =
      ap (λ zs. x.bands ++ zs) (bands-append plugins m)
      ∙ sym (append_assoc x.bands (bands plugins) m.bands)

  unique-none : (id : Bytes) (o : Option (PluginManifest X Y)) → unique id o ≡ success tt → o ≡ none
  unique-none id none h = refl
  unique-none id (some m) h = cc

  -- A manifest that is taken leaves the registry consistent, itself at the end.
  pub add-IsConsistent :
      (m : PluginManifest X Y) (plugins : List (PluginManifest X Y))
      {later : List (PluginManifest X Y)}
      → add m plugins ≡ success later
      → IsConsistent plugins
      → IsConsistent later
  unfolding add
  add-IsConsistent m plugins {later = later} h c =
      let (e₁, n, b, p) =
        chain-success (unique m.id (find m.id plugins)) _ _ (plugins ++ m ∷ []) h in
      subst IsConsistent p record {
        ids = subst AreApart (sym (map-append_one (λ x. x.id) plugins m)) (
            AreApart-append m.id (map (λ x. x.id) plugins)
              (find-none m.id plugins (unique-none m.id _ e₁)) c.ids);
        navigation_apart =
            subst (λ xs. AreApart (map navigation_place xs)) (sym (navigation-append plugins m))
              (claim-AreApart navigation_place same_navigation_place (navigation_taken m.id)
                same_navigation_place_refl (navigation plugins) m.navigation n c.navigation_apart);
        bands_apart =
            subst (λ xs. AreApart (map band_place xs)) (sym (bands-append plugins m))
              (claim-AreApart band_place same_band_place (band_taken m.id) same_band_place_refl
                (bands plugins) m.bands b c.bands_apart);
      }

  -- Gathering a list from every plugin, and the same with one left out.
  module _ {P : Type 0} (gathered : List (PluginManifest X Y) → List P)
      (own : PluginManifest X Y → List P) (nothing : gathered [] ≡ [])
      (more : (m : PluginManifest X Y) (rest : List (PluginManifest X Y))
        → gathered (m ∷ rest) ≡ own m ++ gathered rest) where
    gathered-remove :
        (id : Bytes) (plugins : List (PluginManifest X Y))
        → IsWithin (gathered (remove id plugins)) (gathered plugins)
    unfolding remove
    gathered-remove id [] = rw nothing finished
    gathered-remove id (m ∷ rest) = elim (Bool-cases (same m.id id)) [
      | inl t ↦ rw (more m rest, t) (IsWithin-skip (own m) (gathered-remove id rest))
      | inr f ↦
          rw (more m rest, f, more m (remove id rest))
            (IsWithin-append (own m) (gathered-remove id rest))
    ]

  pub remove-IsConsistent :
      (id : Bytes) (plugins : List (PluginManifest X Y))
      → IsConsistent plugins
      → IsConsistent (remove id plugins)
  unfolding navigation bands
  remove-IsConsistent id plugins c = record {
    ids =
        AreApart-IsWithin
          (gathered-remove (map (λ m. m.id)) (λ m. m.id ∷ []) refl (λ m rest. refl) id plugins)
          c.ids;
    navigation_apart =
        AreApart-IsWithin
          (gathered-remove (λ l. map navigation_place (navigation l))
            (λ m. map navigation_place m.navigation) refl
            (λ m rest. map-append navigation_place m.navigation (navigation rest)) id plugins)
          c.navigation_apart;
    bands_apart =
        AreApart-IsWithin
          (gathered-remove (λ l. map band_place (bands l)) (λ m. map band_place m.bands) refl
            (λ m rest. map-append band_place m.bands (bands rest)) id plugins)
          c.bands_apart;
  }
