-- ===== src/Surface/Store/Isolation.antt =====
-- An owner cannot touch the surfaces of another.
use Prim.Native.String.{String}
use package.text.Mathlib.Text.{◌==◌ as str_eq}
use workpane.Prelude.{
  ℕ, ◌+◌, true, false, not, ◌||◌, List, [], ◌∷◌, ◌++◌, none, some, ◌≡◌, sym, ◌∙◌, subst, Bool-cases,
  Option-cases, inl, inr, All, arith, append-nil, append_assoc,
}
use workpane.Result.{Result-cases}
use workpane.Surface.Tree.{Component, contains}
use workpane.Surface.Classes.{Classes, patch as patch_component}
use workpane.Surface.Visit.{visit_at}
use workpane.Surface.Build.{build, maximum_depth, nothing_staged}
use workpane.Surface.Store.{
  Surface, Store, find, erase, detach, owned, unmount, unmount_owner, unmount_owner_all, place,
  is_foreign, mount, patch, command, commanded,
}
use workpane.Surface.Store.Calls.{
  Call, mounting, patching, unmounting, leaving, commanding, updating, concerns, perform,
  perform_all,
}
use workpane.Surface.Store.Lookup.{
  find-erase, find-append, find-put_root, find-without, owned-success, apart,
}

module _ {S : Type 0} where
  -- What holds of the surfaces that another owner has, before and after a step.
  abbrev pub Untouched : String → Store S → Store S → Type 0
  Untouched owner w w' =
      (id : String) (s : Surface S)
      → find id w.surfaces ≡ some s
      → str_eq s.owner owner ≡ false
      → find id w'.surfaces ≡ some s

  unmount-Untouched :
      (surface owner : String) (w : Store S) → Untouched owner w (unmount surface owner w).0
  unfolding unmount
  unmount-Untouched surface owner w id t f g = elim (Result-cases (owned surface owner w)) [
    | inl (s, e) ↦
        let (a, b) = owned-success surface owner w s e in
        rw (e, unmount)
          (find-erase id surface w.surfaces (apart surface owner w s id t a b f g) ∙ f)
    | inr (err, e) ↦ rw (e, unmount) f
  ]

  unmount_owner-keeps :
      (owner id : String) (t : Surface S)
      → str_eq t.owner owner ≡ false
      → (ss : List (Surface S)) (w : Store S) → find id (w.surfaces ++ ss) ≡ some t
      → find id (unmount_owner owner ss w).surfaces ≡ some t
  unfolding unmount_owner detach
  unmount_owner-keeps owner id t foreign [] w h =
      subst (λ (l : List (Surface S)). find id l ≡ some t) (append-nil w.surfaces) h
  unmount_owner-keeps owner id t foreign (s ∷ rest) w h = elim (Bool-cases (str_eq s.owner owner)) [
    | inl e ↦
        rw (e, unmount_owner)
          (unmount_owner-keeps owner id t foreign rest (detach s w)
            (find-without owner id w.surfaces s rest t e foreign h))
    | inr e ↦
        rw (e, unmount_owner)
          (unmount_owner-keeps owner id t foreign rest
            (record w { surfaces = w.surfaces ++ s ∷ [] })
            (subst (λ (l : List (Surface S)). find id l ≡ some t)
              (sym (append_assoc w.surfaces (s ∷ []) rest)) h))
  ]

  unmount_owner_all-Untouched :
      (owner : String) (w : Store S) → Untouched owner w (unmount_owner_all owner w)
  unfolding unmount_owner_all
  unmount_owner_all-Untouched owner w id t f g =
      unmount_owner-keeps owner id t g w.surfaces (record w { surfaces = [] }) f

module _ {S J : Type 0} (k : Classes S J) where
  patch-Untouched :
      (surface owner : String) (id : ℕ) (properties : J) (w : Store S)
      → Untouched owner w (patch k surface owner id properties w).0
  unfolding patch
  patch-Untouched surface owner id properties w other t f g =
      elim (Result-cases (owned surface owner w)) [
        | inl (s, e) ↦
            let (a, b) = owned-success surface owner w s e in
            elim (Bool-cases (contains id s.nodes)) [
              | inl c ↦ elim (Bool-cases (k.is_object properties)) [
                | inl d ↦
                    rw (e, c, d, patch)
                      (find-put_root other surface
                          (visit_at id (patch_component k properties) s.root).0 w.surfaces
                          (apart surface owner w s other t a b f g)
                        ∙ f)
                | inr d ↦ rw (e, c, d, patch) f
              ]
              | inr c ↦ rw (e, c, patch) f
            ]
        | inr (err, e) ↦ rw (e, patch) f
      ]

  place-Untouched :
      (surface owner assets : String) (root : Component S) (nodes : List ℕ) (w : Store S)
      → is_foreign k owner (find surface w.surfaces) ≡ false
      → Untouched owner w (place k surface owner assets root nodes w)
  unfolding place
  place-Untouched surface owner assets root nodes w own id t f g =
      elim (Option-cases (find surface w.surfaces)) [
        | inl e ↦ rw (e, place) (find-append id w.surfaces _ t f)
        | inr (s, e) ↦
            let own' : not (str_eq s.owner owner) ≡ false = rw e at own in
            let b : str_eq s.owner owner ≡ true = ground arith in
            rw (e, place)
              (find-append id (erase surface w.surfaces) _ t
                (find-erase id surface w.surfaces (apart surface owner w s id t e b f g) ∙ f))
      ]

  mount-Untouched :
      (surface owner assets : String) (tree : J) (w : Store S)
      → Untouched owner w (mount k surface owner assets tree w).0
  unfolding mount
  mount-Untouched surface owner assets tree w id t f g =
      elim (Bool-cases (str_eq surface "" || str_eq owner "")) [
        | inl a ↦ rw (a, mount) f
        | inr a ↦ elim (Bool-cases (is_foreign k owner (find surface w.surfaces))) [
          | inl b ↦ rw (a, b, mount) f
          | inr b ↦ elim (Result-cases (build k none (maximum_depth + 1) 0 tree nothing_staged)) [
            | inl ((root, staged), c) ↦
                rw (a, b, c, mount)
                  (place-Untouched surface owner assets root staged.nodes w b id t f g)
            | inr (e, c) ↦ rw (a, b, c, mount) f
          ]
        ]
      ]

  command-Untouched :
      (surface owner : String) (id : ℕ) (name : String) (arguments : J) (w : Store S)
      → Untouched owner w (command k surface owner id name arguments w).0
  unfolding command
  command-Untouched surface owner id name arguments w other t f g =
      elim (Result-cases (owned surface owner w)) [
        | inl (s, e) ↦
            let (a, b) = owned-success surface owner w s e in
            elim (Bool-cases (contains id s.nodes)) [
              | inl c ↦
                  rw (e, c, command)
                    (find-put_root other surface (visit_at id (commanded k name arguments) s.root).0
                        w.surfaces (apart surface owner w s other t a b f g)
                      ∙ f)
              | inr c ↦ rw (e, c, command) f
            ]
        | inr (err, e) ↦ rw (e, command) f
      ]

  perform-keeps :
      (c : Call J) (w : Store S) (id : String) (s : Surface S)
      → find id w.surfaces ≡ some s
      → concerns k s.owner c ≡ false
      → find id (perform k c w).surfaces ≡ some s
  perform-keeps (mounting surface owner assets tree) w id s f h =
      mount-Untouched surface owner assets tree w id s f h
  perform-keeps (patching surface owner node properties) w id s f h =
      patch-Untouched surface owner node properties w id s f h
  perform-keeps (unmounting surface owner) w id s f h = unmount-Untouched surface owner w id s f h
  perform-keeps (leaving owner) w id s f h = unmount_owner_all-Untouched owner w id s f h
  perform-keeps (commanding surface owner node name arguments) w id s f h =
      command-Untouched surface owner node name arguments w id s f h
  perform-keeps updating w id s f h = cc

  -- Whatever other owners call, mounts, patches, commands, unmounts and departures alike, a mounted
  -- surface stays found under its identity exactly as it was.
  pub perform_all-keeps :
      (calls : List (Call J)) (w : Store S) (id : String) (s : Surface S)
      → find id w.surfaces ≡ some s
      → All (λ c. concerns k s.owner c ≡ false) calls
      → find id (perform_all k calls w).surfaces ≡ some s
  unfolding perform_all
  perform_all-keeps [] w id s f h = f
  perform_all-keeps (c ∷ calls) w id s f h =
      perform_all-keeps calls (perform k c w) id s (perform-keeps c w id s f h.0) h.1
