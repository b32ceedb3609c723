-- ===== src/Surface/Store/Soundness.antt =====
-- Every mounted surface is a tree within the bounds, whose map has exactly its identities.
use Prim.Native.String.{String}
use package.text.Mathlib.Text.{◌==◌ as str_eq}
use workpane.Prelude.{
  ℕ, ◌+◌, ◌≤◌, ◌||◌, List, [], ◌∷◌, ◌++◌, none, ◌≡◌, refl, sym, ◌∙◌, subst, Bool-cases,
  Option-cases, inl, inr, All, All-append, arith, length, append-nil, append_assoc,
}
use workpane.Result.{Result-cases}
use workpane.Surface.Tree.{Component, contains, ids, height, Distinct}
use workpane.Surface.Classes.{Classes, patch as patch_component}
use workpane.Surface.Visit.{visit_at, visit_at-SameShape, SameShape}
use workpane.Surface.Build.{Staged, build, maximum_depth, maximum_nodes, nothing_staged}
use workpane.Surface.Build.Passed.{build-IsBuilt}
use workpane.Surface.Build.Trees.{IsBuilt}
use workpane.Surface.Store.{
  Surface, Store, find, erase, detach, owned, unmount, unmount_owner, unmount_owner_all, place,
  is_foreign, mount, patch, command, commanded, updated, update_nodes, update_surface, update_all,
  update, initial,
}
use workpane.Surface.Store.Calls.{
  Call, mounting, patching, unmounting, leaving, commanding, updating, perform, perform_all,
}
use workpane.Surface.Store.Lookup.{owned-success}
use workpane.Surface.Store.Keys.{
  Keyed, Keyed-without, Keyed-replaced, erase-Keyed, find-erase_same, append-Keyed, put_root-Keyed,
  put_root-All,
}

module _ {S : Type 0} where
  pub record IsSound (s : Surface S) : Type 0 where
    pub nodes : s.nodes ≡ ids s.root
    pub distinct : Distinct s.nodes
    pub depth : height s.root ≤ maximum_depth + 1
    pub size : length s.nodes ≤ maximum_nodes

  built-IsSound :
      {J : Type 0} {k : Classes S J} (surface owner assets : String) (root : Component S)
      (staged : Staged)
      → IsBuilt k none 0 nothing_staged root staged
      → IsSound (record {
        id = surface;
        owner = owner;
        assets = assets;
        root = root;
        nodes = staged.nodes;
      })
  built-IsSound surface owner assets root staged b = record {
    nodes = b.adds.nodes;
    distinct = b.adds.distinct tt;
    depth = omega (arith, b.deep);
    size = omega (arith, b.adds.count (omega arith), b.adds.staying);
  }

  root-IsSound :
      (s : Surface S) (root : Component S)
      → SameShape root s.root
      → IsSound s
      → IsSound (record s { root = root })
  root-IsSound s root (e, f) h = record {
    nodes = h.nodes ∙ sym e;
    distinct = h.distinct;
    depth = omega (arith, h.depth, f);
    size = h.size;
  }

  All-without :
      (P : Surface S → Type 0) (xs : List (Surface S)) (s : Surface S) (rest : List (Surface S))
      → All P (xs ++ s ∷ rest)
      → All P (xs ++ rest)
  All-without P [] s rest h = h.1
  All-without P (x ∷ xs) s rest h = (h.0, All-without P xs s rest h.1)

  All-replaced :
      (P : Surface S → Type 0) (xs : List (Surface S)) (s t : Surface S) (rest : List (Surface S))
      → (P s → P t)
      → All P (xs ++ s ∷ rest)
      → All P (xs ++ t ∷ rest)
  All-replaced P [] s t rest f h = (f h.0, h.1)
  All-replaced P (x ∷ xs) s t rest f h = (h.0, All-replaced P xs s t rest f h.1)

  erase-All :
      (P : Surface S → Type 0) (id : String) (ss : List (Surface S))
      → All P ss
      → All P (erase id ss)
  unfolding erase
  erase-All P id [] h = tt
  erase-All P id (s ∷ rest) h = elim (Bool-cases (str_eq s.id id)) [
    | inl e ↦ rw e (erase-All P id rest h.1)
    | inr e ↦ rw e (h.0, erase-All P id rest h.1)
  ]

  pub record AreSound (w : Store S) : Type 0 where
    pub sound : All IsSound w.surfaces
    pub keyed : Keyed w.surfaces

  unmount_owner-AreSound :
      (owner : String) (ss : List (Surface S)) (w : Store S)
      → All IsSound (w.surfaces ++ ss)
      → Keyed (w.surfaces ++ ss)
      → AreSound (unmount_owner owner ss w)
  unfolding unmount_owner detach
  unmount_owner-AreSound owner [] w h k = record {
    sound = subst (All IsSound) (append-nil w.surfaces) h;
    keyed = subst Keyed (append-nil w.surfaces) k;
  }
  unmount_owner-AreSound owner (s ∷ rest) w h k = elim (Bool-cases (str_eq s.owner owner)) [
    | inl e ↦
        rw (e, unmount_owner)
          (unmount_owner-AreSound owner rest (detach s w) (All-without IsSound w.surfaces s rest h)
            (Keyed-without w.surfaces s rest k))
    | inr e ↦
        rw (e, unmount_owner)
          (unmount_owner-AreSound owner rest (record w { surfaces = w.surfaces ++ s ∷ [] })
            (subst (All IsSound) (sym (append_assoc w.surfaces (s ∷ []) rest)) h)
            (subst Keyed (sym (append_assoc w.surfaces (s ∷ []) rest)) k))
  ]

  unmount-AreSound :
      (surface owner : String) (w : Store S) → AreSound w → AreSound (unmount surface owner w).0
  unfolding unmount
  unmount-AreSound surface owner w h = elim (Result-cases (owned surface owner w)) [
    | inl (s, e) ↦
        rw (e, unmount)
          (record {
            sound = erase-All IsSound surface w.surfaces h.sound;
            keyed = erase-Keyed surface w.surfaces h.keyed;
          })
    | inr (err, e) ↦ rw (e, unmount) h
  ]

module _ {S J : Type 0} (k : Classes S J) where
  patch-AreSound :
      (surface owner : String) (id : ℕ) (properties : J) (w : Store S)
      → AreSound w
      → AreSound (patch k surface owner id properties w).0
  unfolding patch
  patch-AreSound surface owner id properties w h = elim (Result-cases (owned surface owner w)) [
    | inl (s, e) ↦ elim (Bool-cases (contains id s.nodes)) [
      | inl c ↦ elim (Bool-cases (k.is_object properties)) [
        | inl d ↦
            rw (e, c, d, patch)
              (record {
                sound =
                    put_root-All IsSound surface
                      (visit_at id (patch_component k properties) s.root).0 s
                      (root-IsSound s (visit_at id (patch_component k properties) s.root).0
                        (visit_at-SameShape id (patch_component k properties) s.root))
                      w.surfaces h.keyed (owned-success surface owner w s e).0 h.sound;
                keyed =
                    put_root-Keyed surface (visit_at id (patch_component k properties) s.root).0
                      w.surfaces h.keyed;
              })
        | inr d ↦ rw (e, c, d, patch) h
      ]
      | inr c ↦ rw (e, c, patch) h
    ]
    | inr (err, e) ↦ rw (e, patch) h
  ]

  command-AreSound :
      (surface owner : String) (id : ℕ) (name : String) (arguments : J) (w : Store S)
      → AreSound w
      → AreSound (command k surface owner id name arguments w).0
  unfolding command
  command-AreSound surface owner id name arguments w h =
      elim (Result-cases (owned surface owner w)) [
        | inl (s, e) ↦ elim (Bool-cases (contains id s.nodes)) [
          | inl c ↦
              let root = (visit_at id (commanded k name arguments) s.root).0 in
              rw (e, c, command)
                (record {
                  sound =
                      put_root-All IsSound surface root s
                        (root-IsSound s root
                          (visit_at-SameShape id (commanded k name arguments) s.root))
                        w.surfaces h.keyed (owned-success surface owner w s e).0 h.sound;
                  keyed = put_root-Keyed surface root w.surfaces h.keyed;
                })
          | inr c ↦ rw (e, c, command) h
        ]
        | inr (err, e) ↦ rw (e, command) h
      ]

  update_nodes-SameShape :
      (nodes : List ℕ) (root : Component S) → SameShape (update_nodes k nodes root) root
  unfolding update_nodes
  update_nodes-SameShape [] root = (refl, refl)
  update_nodes-SameShape (id ∷ rest) root =
      let (e, f) = visit_at-SameShape id (updated k) root in
      let (e', f') = update_nodes-SameShape rest (visit_at id (updated k) root).0 in
      (e' ∙ e, f' ∙ f)

  update_all-AreSound :
      (ss : List (Surface S)) (w : Store S)
      → All IsSound (w.surfaces ++ ss)
      → Keyed (w.surfaces ++ ss)
      → AreSound (update_all k ss w)
  unfolding update_all
  update_all-AreSound [] w h u = record {
    sound = subst (All IsSound) (append-nil w.surfaces) h;
    keyed = subst Keyed (append-nil w.surfaces) u;
  }
  update_all-AreSound (s ∷ rest) w h u =
      let s' : Surface S = update_surface k s in
      let sound =
        All-replaced IsSound w.surfaces s s' rest
          (root-IsSound s s'.root (update_nodes-SameShape s.nodes s.root)) h in
      let keyed = Keyed-replaced w.surfaces s s' rest refl u in
      update_all-AreSound rest
        (record w { surfaces = w.surfaces ++ s' ∷ []; current = (s.id, s.assets) })
        (subst (All IsSound) (sym (append_assoc w.surfaces (s' ∷ []) rest)) sound)
        (subst Keyed (sym (append_assoc w.surfaces (s' ∷ []) rest)) keyed)

  place-AreSound :
      (surface owner assets : String) (root : Component S) (nodes : List ℕ) (w : Store S)
      → IsSound
          (record { id = surface; owner = owner; assets = assets; root = root; nodes = nodes })
      → AreSound w
      → AreSound (place k surface owner assets root nodes w)
  unfolding place
  place-AreSound surface owner assets root nodes w new h =
      elim (Option-cases (find surface w.surfaces)) [
        | inl e ↦
            rw (e, place)
              (record {
                sound = All-append IsSound w.surfaces _ h.sound (new, tt);
                keyed = append-Keyed w.surfaces _ h.keyed e;
              })
        | inr (s, e) ↦
            rw (e, place)
              (record {
                sound =
                    All-append IsSound (erase surface w.surfaces) _
                      (erase-All IsSound surface w.surfaces h.sound) (new, tt);
                keyed =
                    append-Keyed (erase surface w.surfaces) _
                      (erase-Keyed surface w.surfaces h.keyed) (find-erase_same surface w.surfaces);
              })
      ]

  mount-AreSound :
      (surface owner assets : String) (tree : J) (w : Store S)
      → AreSound w
      → AreSound (mount k surface owner assets tree w).0
  unfolding mount
  mount-AreSound surface owner assets tree w h =
      elim (Bool-cases (str_eq surface "" || str_eq owner "")) [
        | inl a ↦ rw (a, mount) h
        | inr a ↦ elim (Bool-cases (is_foreign k owner (find surface w.surfaces))) [
          | inl b ↦ rw (a, b, mount) h
          | inr b ↦ elim (Result-cases (build k none (maximum_depth + 1) 0 tree nothing_staged)) [
            | inl ((root, staged), c) ↦
                rw (a, b, c, mount)
                  (place-AreSound surface owner assets root staged.nodes w
                    (built-IsSound surface owner assets root staged (
                      build-IsBuilt k none (maximum_depth + 1) 0 tree nothing_staged root staged c))
                    h)
            | inr (e, c) ↦ rw (a, b, c, mount) h
          ]
        ]
      ]

  pub perform-AreSound : (c : Call J) (w : Store S) → AreSound w → AreSound (perform k c w)
  unfolding unmount_owner_all update
  perform-AreSound (mounting surface owner assets tree) w h =
      mount-AreSound surface owner assets tree w h
  perform-AreSound (patching surface owner id properties) w h =
      patch-AreSound surface owner id properties w h
  perform-AreSound (unmounting surface owner) w h = unmount-AreSound surface owner w h
  perform-AreSound (leaving owner) w h =
      unmount_owner-AreSound owner w.surfaces (record w { surfaces = [] }) h.sound h.keyed
  perform-AreSound (commanding surface owner id name arguments) w h =
      command-AreSound surface owner id name arguments w h
  perform-AreSound updating w h =
      update_all-AreSound w.surfaces (record w { surfaces = [] }) h.sound h.keyed

  perform_all-AreSound :
      (calls : List (Call J)) (w : Store S) → AreSound w → AreSound (perform_all k calls w)
  unfolding perform_all
  perform_all-AreSound [] w h = h
  perform_all-AreSound (c ∷ calls) w h =
      perform_all-AreSound calls (perform k c w) (perform-AreSound c w h)

  -- After any mounts, patches, commands, updates, unmounts and departures from the empty store, no two
  -- surfaces share an identity, and each one's map has exactly the identities of its tree, no two alike, at most 50000 on
  -- at most 65 levels.
  pub perform_all-initial-AreSound :
      (calls : List (Call J)) → AreSound (perform_all k calls initial)
  perform_all-initial-AreSound calls =
      perform_all-AreSound calls initial (record { sound = tt; keyed = tt })
