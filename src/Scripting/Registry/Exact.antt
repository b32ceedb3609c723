-- ===== src/Scripting/Registry/Exact.antt =====
-- Which manifests the registry takes.
use workpane.Prelude.{
  ◌≡◌, ◌↔◌, refl, sym, ap, subst, Bool, true, List, [], ◌∷◌, ◌++◌, map, append_assoc, none,
  Bool-cases, inl, inr, arith,
}
use workpane.Prelude.Int.{ℤ, pos, negsuc}
use workpane.Prelude.Bytes.{Bytes, same, same-eq}
use workpane.Result.{Error, success}
use workpane.Scripting.Registry.{
  NavigationPlacement, primary, secondary, BandPlacement, top, bottom, PluginManifest, same_integer,
  same_navigation_place, same_band_place, navigation_place, band_place, navigation_taken,
  band_taken, claimant, claim, find, navigation, bands, add,
}
use workpane.Scripting.Registry.Apart.{IsMissing, AreApart, AreApart-split}
use workpane.Scripting.Registry.Consistent.{
  IsConsistent, add-IsConsistent, map-append_one, map-append, navigation-append, bands-append,
}

same_integer-eq : (a b : ℤ) → same_integer a b ≡ true → a ≡ b
same_integer-eq (pos a) (pos b) h = ap pos (ground arith)
same_integer-eq (pos a) (negsuc b) h = cc
same_integer-eq (negsuc a) (pos b) h = cc
same_integer-eq (negsuc a) (negsuc b) h = ap negsuc (ground arith)

same_navigation_place-eq :
    (p q : NavigationPlacement × ℤ) → same_navigation_place p q ≡ true → p ≡ q
same_navigation_place-eq (primary, a) (primary, b) h =
    ap (λ n. (primary, n)) (same_integer-eq a b h)
same_navigation_place-eq (primary, a) (secondary, b) h = cc
same_navigation_place-eq (secondary, a) (primary, b) h = cc
same_navigation_place-eq (secondary, a) (secondary, b) h =
    ap (λ n. (secondary, n)) (same_integer-eq a b h)

same_band_place-eq : (p q : BandPlacement × ℤ) → same_band_place p q ≡ true → p ≡ q
same_band_place-eq (top, a) (top, b) h = ap (λ n. (top, n)) (same_integer-eq a b h)
same_band_place-eq (top, a) (bottom, b) h = cc
same_band_place-eq (bottom, a) (top, b) h = cc
same_band_place-eq (bottom, a) (bottom, b) h = ap (λ n. (bottom, n)) (same_integer-eq a b h)

module _ {A P : Type 0} (place : A → P) (same_place : P → P → Bool) (taken : A → A → Error)
    (exact : (p q : P) → same_place p q ≡ true → p ≡ q) where
  claimant-missing :
      (p : P) (claimed : List A)
      → IsMissing p (map place claimed)
      → claimant place same_place taken p claimed ≡ none
  unfolding claimant
  claimant-missing p [] m = refl
  claimant-missing p (x ∷ claimed) (n, m) = elim (Bool-cases (same_place (place x) p)) [
    | inl t ↦ absurd (n (exact (place x) p t))
    | inr f ↦ rw f (claimant-missing p claimed m)
  ]

  claim-success :
      (claimed items : List A)
      → AreApart (map place (claimed ++ items))
      → claim place same_place taken claimed items ≡ success tt
  unfolding claim
  claim-success claimed [] a = refl
  claim-success claimed (item ∷ rest) a =
      let m =
        AreApart-split (place item) (map place claimed) (map place rest)
          (subst AreApart (map-append place claimed (item ∷ rest)) a) in
      rw (claimant-missing (place item) claimed m) (
        claim-success (claimed ++ item ∷ []) rest
          (subst (λ xs. AreApart (map place xs)) (sym (append_assoc claimed (item ∷ []) rest)) a))

module _ {X Y : Type 0} where
  find-missing :
      (id : Bytes) (plugins : List (PluginManifest X Y))
      → IsMissing id (map (λ m. m.id) plugins)
      → find id plugins ≡ none
  unfolding find
  find-missing id [] a = refl
  find-missing id (m ∷ rest) (n, a) = elim (Bool-cases (same m.id id)) [
    | inl t ↦ absurd (n (same-eq m.id id t))
    | inr f ↦ rw f (find-missing id rest a)
  ]

  add-success :
      (m : PluginManifest X Y) (plugins : List (PluginManifest X Y))
      → IsConsistent (plugins ++ m ∷ [])
      → add m plugins ≡ success (plugins ++ m ∷ [])
  unfolding add
  add-success m plugins c =
      let missing =
        AreApart-split m.id (map (λ x. x.id) plugins) []
          (subst AreApart (map-append_one (λ x. x.id) plugins m) c.ids) in
      let placed =
        claim-success navigation_place same_navigation_place (navigation_taken m.id)
          same_navigation_place-eq (navigation plugins) m.navigation
          (subst (λ xs. AreApart (map navigation_place xs)) (navigation-append plugins m)
            c.navigation_apart) in
      let banded =
        claim-success band_place same_band_place (band_taken m.id) same_band_place-eq
          (bands plugins) m.bands
          (subst (λ xs. AreApart (map band_place xs)) (bands-append plugins m) c.bands_apart) in
      rw (find-missing m.id plugins missing, placed, banded) refl

  -- A registry in which no identifier or position is taken twice adds a manifest at its end exactly when that
  -- also holds with the manifest there.
  pub add_iff :
      (m : PluginManifest X Y) (plugins : List (PluginManifest X Y))
      → IsConsistent plugins
      → (add m plugins ≡ success (plugins ++ m ∷ [])) ↔ IsConsistent (plugins ++ m ∷ [])
  add_iff m plugins c = (λ h. add-IsConsistent m plugins h c, add-success m plugins)
