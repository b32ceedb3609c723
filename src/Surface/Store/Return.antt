-- ===== src/Surface/Store/Return.antt =====
-- A surface that is mounted is there, and one that is unmounted again leaves no trace among the others.
use Prim.Native.String.{String}
use package.text.Mathlib.Text.{◌==◌ as str_eq}
use package.text.Mathlib.TextEquality.{eq_iff}
use workpane.Prelude.{
  ℕ, ◌+◌, true, ◌||◌, List, [], ◌∷◌, ◌++◌, none, some, ◌≡◌, refl, ◌∙◌, ap, Bool-cases, inl, inr,
}
use workpane.Result.{success, Result-cases}
use workpane.Surface.Tree.{Component}
use workpane.Surface.Classes.{Classes}
use workpane.Surface.Build.{build, maximum_depth, nothing_staged}
use workpane.Surface.Store.{Surface, Store, find, erase, owned, unmount, place, is_foreign, mount}
use workpane.Surface.Store.Keys.{find-head}

module _ {S : Type 0} where
  pub find-append_last :
      (id : String) (ss : List (Surface S)) (s : Surface S)
      → find id ss ≡ none
      → str_eq s.id id ≡ true
      → find id (ss ++ s ∷ []) ≡ some s
  unfolding find
  find-append_last id [] s h e = rw e refl
  find-append_last id (x ∷ ss) s h e =
      let (f, h') = find-head id x ss h in rw f (find-append_last id ss s h' e)

  erase-append_last :
      (id : String) (ss : List (Surface S)) (s : Surface S)
      → find id ss ≡ none
      → str_eq s.id id ≡ true
      → erase id (ss ++ s ∷ []) ≡ ss
  unfolding erase
  erase-append_last id [] s h e = rw e refl
  erase-append_last id (x ∷ ss) s h e =
      let (f, h') = find-head id x ss h in
      rw f (ap (λ (l : List (Surface S)). x ∷ l) (erase-append_last id ss s h' e))

  unmount-found :
      (surface owner : String) (w : Store S) (s : Surface S)
      → find surface w.surfaces ≡ some s
      → str_eq s.owner owner ≡ true
      → ((unmount surface owner w).1 ≡ success tt)
        × ((unmount surface owner w).0.surfaces ≡ erase surface w.surfaces)
  unfolding unmount owned
  unmount-found surface owner w s f e =
      let p : owned surface owner w ≡ success s = rw (f, e, owned) refl in
      rw (p, unmount) (refl, refl)

module _ {S J : Type 0} (k : Classes S J) where
  place-unmount :
      (surface owner assets : String) (root : Component S) (nodes : List ℕ) (w : Store S)
      → find surface w.surfaces ≡ none
      → ((unmount surface owner (place k surface owner assets root nodes w)).1 ≡ success tt)
        × ((unmount surface owner (place k surface owner assets root nodes w)).0.surfaces
            ≡ w.surfaces)
  unfolding place
  place-unmount surface owner assets root nodes w h =
      let s : Surface S = record {
        id = surface;
        owner = owner;
        assets = assets;
        root = root;
        nodes = nodes;
      } in
      let w' : Store S = record w { surfaces = w.surfaces ++ s ∷ [] } in
      let p : place k surface owner assets root nodes w ≡ w' = rw (h, place) refl in
      let (a, b) =
        unmount-found surface owner w' s
          (find-append_last surface w.surfaces s h ((eq_iff surface surface).1 refl))
          ((eq_iff owner owner).1 refl) in
      rw p (a, b ∙ erase-append_last surface w.surfaces s h ((eq_iff surface surface).1 refl))

  -- Once a mount under a new identity has succeeded, its owner can unmount the surface, and the surfaces
  -- are what they were before.
  pub mount-unmount :
      (surface owner assets : String) (tree : J) (w : Store S)
      → find surface w.surfaces ≡ none
      → (mount k surface owner assets tree w).1 ≡ success tt
      → ((unmount surface owner (mount k surface owner assets tree w).0).1 ≡ success tt)
        × ((unmount surface owner (mount k surface owner assets tree w).0).0.surfaces ≡ w.surfaces)
  unfolding mount
  mount-unmount surface owner assets tree w f h =
      elim (Bool-cases (str_eq surface "" || str_eq owner "")) [
        | inl a ↦ let h' = rw (a, mount) at h in absurd (cc)
        | inr a ↦ elim (Bool-cases (is_foreign k owner (find surface w.surfaces))) [
          | inl b ↦ let h' = rw (a, b, mount) at h in absurd (cc)
          | inr b ↦ elim (Result-cases (build k none (maximum_depth + 1) 0 tree nothing_staged)) [
            | inl ((root, staged), c) ↦
                rw (a, b, c, mount) (place-unmount surface owner assets root staged.nodes w f)
            | inr (e, c) ↦ let h' = rw (a, b, c, mount) at h in absurd (cc)
          ]
        ]
      ]
