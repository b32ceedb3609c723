-- ===== src/Surface/Store/Refinement.antt =====
-- The store does what `Abstract` says, call by call and over runs of calls.
use Prim.Native.String.{String}
use package.text.Mathlib.Text.{◌==◌ as str_eq}
use package.text.Mathlib.TextEquality.{eq_iff}
use mathlib.Core.Path.{fun_ext}
use workpane.Prelude.{
  ℕ, ◌+◌, false, ◌||◌, List, [], ◌∷◌, ◌++◌, Option, none, some, ◌≡◌, refl, sym, ◌∙◌, ap, subst,
  Bool-cases, Option-cases, inl, inr, map, append_assoc, append-nil,
}
use workpane.Result.{Result, success, Result-cases}
use workpane.Surface.Tree.{Component, contains}
use workpane.Surface.Classes.{Classes, patch as patch_component}
use workpane.Surface.Visit.{visit_at}
use workpane.Surface.Build.{build, maximum_depth, nothing_staged}
use workpane.Surface.Store.{
  Surface, Store, find, erase, detach, owned, unmount, place, is_foreign, mount, put_root, patch,
  command, commanded, visited, update, update_all, update_surface, initial,
}
use workpane.Surface.Store.Calls.{
  Call, mounting, patching, unmounting, leaving, commanding, updating, perform, answer, perform_all,
}
use workpane.Surface.Store.Lookup.{find-erase, find-put_root, owned-success}
use workpane.Surface.Store.Keys.{Keyed, find-erase_same}
use workpane.Surface.Store.Return.{find-append_last}
use workpane.Surface.Store.Departure.{others, unmount_owner_all-eq}
use workpane.Surface.Store.Soundness.{AreSound, perform-AreSound}
use workpane.Surface.Store.Abstract.{
  View, view, set, unless_owned, each, specified, push, replay, answer_all, visit_view,
}

module _ {S : Type 0} where
  abbrev seen : List (Surface S) → View S
  seen ss id = find id ss

  find-put_root_same :
      (surface : String) (root : Component S) (s : Surface S) (ss : List (Surface S))
      → find surface ss ≡ some s
      → find surface (put_root surface root ss) ≡ some (record s { root = root })
  unfolding find put_root
  find-put_root_same surface root s [] h = cc
  find-put_root_same surface root s (x ∷ ss) h = elim (Bool-cases (str_eq x.id surface)) [
    | inl e ↦
        rw (e, e)
          (ap (λ (o : Option (Surface S)). each (λ t. record t { root = root }) o) (rw e at h))
    | inr e ↦ rw (e, e) (find-put_root_same surface root s ss (rw e at h))
  ]

  put_root-view :
      (surface : String) (root : Component S) (s : Surface S) (ss : List (Surface S))
      → find surface ss ≡ some s
      → seen (put_root surface root ss) ≡ set surface (some (record s { root = root })) (seen ss)
  put_root-view surface root s ss h = fun_ext (λ id. elim (Bool-cases (str_eq surface id)) [
    | inl e ↦ rw e (
        subst (λ (x : String). find x (put_root surface root ss) ≡ some (record s { root = root }))
          ((eq_iff surface id).0 e) (find-put_root_same surface root s ss h))
    | inr e ↦ rw e (find-put_root id surface root ss e)
  ])

  erase-view :
      (surface : String) (ss : List (Surface S))
      → seen (erase surface ss) ≡ set surface none (seen ss)
  erase-view surface ss = fun_ext (λ id. elim (Bool-cases (str_eq surface id)) [
    | inl e ↦ rw e (
        subst (λ (x : String). find x (erase surface ss) ≡ none) ((eq_iff surface id).0 e)
          (find-erase_same surface ss))
    | inr e ↦ rw e (find-erase id surface ss e)
  ])

  find-append_other :
      (id : String) (ss : List (Surface S)) (s : Surface S)
      → str_eq s.id id ≡ false
      → find id (ss ++ s ∷ []) ≡ find id ss
  unfolding find
  find-append_other id [] s h = rw h refl
  find-append_other id (x ∷ ss) s h = elim (Bool-cases (str_eq x.id id)) [
    | inl e ↦ rw e refl
    | inr e ↦ rw e (find-append_other id ss s h)
  ]

  append-view :
      (ss : List (Surface S)) (s : Surface S)
      → find s.id ss ≡ none
      → seen (ss ++ s ∷ []) ≡ set s.id (some s) (seen ss)
  append-view ss s h = fun_ext (λ id. elim (Bool-cases (str_eq s.id id)) [
    | inl e ↦ rw e (
        find-append_last id ss s (subst (λ (x : String). find x ss ≡ none) ((eq_iff s.id id).0 e) h)
          e)
    | inr e ↦ rw e (find-append_other id ss s e)
  ])

  set-set :
      (surface : String) (a b : Option (Surface S)) (f : View S)
      → set surface a (set surface b f) ≡ set surface a f
  set-set surface a b f =
      fun_ext
        (λ id. elim (Bool-cases (str_eq surface id)) [ inl e ↦ rw e refl | inr e ↦ rw e refl ])

  others-find :
      (owner id : String) (ss : List (Surface S))
      → Keyed ss
      → find id (others owner ss) ≡ unless_owned owner (find id ss)
  unfolding find others
  others-find owner id [] k = refl
  others-find owner id (s ∷ ss) k = elim (Bool-cases (str_eq s.owner owner)) [
    | inl o ↦ elim (Bool-cases (str_eq s.id id)) [
      | inl e ↦
          let q = subst (λ (x : String). find x ss ≡ none) ((eq_iff s.id id).0 e) k.0 in
          rw (o, e, o) (others-find owner id ss k.1 ∙ ap (unless_owned owner) q)
      | inr e ↦ rw (o, e) (others-find owner id ss k.1)
    ]
    | inr o ↦ elim (Bool-cases (str_eq s.id id)) [
      | inl e ↦ rw (o, e, o) refl
      | inr e ↦ rw (o, e) (others-find owner id ss k.1)
    ]
  ]

module _ {S J : Type 0} (k : Classes S J) where
  find-map :
      (id : String) (ss : List (Surface S))
      → find id (map (update_surface k) ss) ≡ each (update_surface k) (find id ss)
  unfolding find
  find-map id [] = refl
  find-map id (s ∷ ss) = elim (Bool-cases (str_eq s.id id)) [
    | inl e ↦ rw e refl
    | inr e ↦ rw e (find-map id ss)
  ]

  update_all-surfaces :
      (ss : List (Surface S)) (w : Store S)
      → (update_all k ss w).surfaces ≡ w.surfaces ++ map (update_surface k) ss
  unfolding update_all
  update_all-surfaces [] w = sym (append-nil w.surfaces)
  update_all-surfaces (s ∷ rest) w =
      update_all-surfaces rest
        (record w { surfaces = w.surfaces ++ update_surface k s ∷ []; current = (s.id, s.assets) })
      ∙ append_assoc w.surfaces (update_surface k s ∷ []) (map (update_surface k) rest)

  -- A store and an answer, as the abstract map and that answer.
  abbrev shown : Store S × Result (Unit {0}) → View S × Result (Unit {0})
  shown (w, answer) = (view w, answer)

  visited-shown :
      (surface : String) (id : ℕ) (act : ℕ → S → S × Result (Unit {0})) (s : Surface S)
      (w : Store S)
      → find surface w.surfaces ≡ some s
      → shown (visited k surface id act s w) ≡ visit_view k surface id act (view w) s
  visited-shown surface id act s w h =
      ap (λ (f : View S). (f, (visited k surface id act s w).1))
        (put_root-view surface (visit_at id act s.root).0 s w.surfaces h)

  place-view :
      (surface owner assets : String) (root : Component S) (nodes : List ℕ) (w : Store S)
      → view (place k surface owner assets root nodes w)
        ≡ set surface
            (some
              (record { id = surface; owner = owner; assets = assets; root = root; nodes = nodes }))
            (view w)
  unfolding place detach
  place-view surface owner assets root nodes w =
      let s : Surface S = record {
        id = surface;
        owner = owner;
        assets = assets;
        root = root;
        nodes = nodes;
      } in
      elim (Option-cases (find surface w.surfaces)) [
        | inl e ↦ rw (e, place) (append-view w.surfaces s e)
        | inr (t, e) ↦
            rw (e, place)
              (append-view (erase surface w.surfaces) s (find-erase_same surface w.surfaces)
                ∙ ap (set surface (some s)) (erase-view surface w.surfaces)
                ∙ set-set surface (some s) none (view w))
      ]

  mount-shown :
      (surface owner assets : String) (tree : J) (w : Store S)
      → shown (mount k surface owner assets tree w)
        ≡ specified k (mounting surface owner assets tree) (view w)
  unfolding mount specified
  mount-shown surface owner assets tree w =
      elim (Bool-cases (str_eq surface "" || str_eq owner "")) [
        | inl a ↦ rw (a, mount, specified) refl
        | inr a ↦ elim (Bool-cases (is_foreign k owner (find surface w.surfaces))) [
          | inl b ↦ rw (a, b, mount, specified) refl
          | inr b ↦ elim (Result-cases (build k none (maximum_depth + 1) 0 tree nothing_staged)) [
            | inl ((root, staged), c) ↦
                rw (a, b, c, mount, specified)
                  (ap (λ (f : View S). (f, success tt))
                    (place-view surface owner assets root staged.nodes w))
            | inr (e, c) ↦ rw (a, b, c, mount, specified) refl
          ]
        ]
      ]

  patch-shown :
      (surface owner : String) (id : ℕ) (properties : J) (w : Store S)
      → shown (patch k surface owner id properties w)
        ≡ specified k (patching surface owner id properties) (view w)
  unfolding patch specified owned
  patch-shown surface owner id properties w = elim (Result-cases (owned surface owner w)) [
    | inl (s, e) ↦ elim (Bool-cases (contains id s.nodes)) [
      | inl c ↦ elim (Bool-cases (k.is_object properties)) [
        | inl d ↦
            rw (e, c, d, patch)
              (visited-shown surface id (patch_component k properties) s w
                (owned-success surface owner w s e).0)
        | inr d ↦ rw (e, c, d, patch) refl
      ]
      | inr c ↦ rw (e, c, patch) refl
    ]
    | inr (err, e) ↦ rw (e, patch) refl
  ]

  unmount-shown :
      (surface owner : String) (w : Store S)
      → shown (unmount surface owner w) ≡ specified k (unmounting surface owner) (view w)
  unfolding unmount specified owned
  unmount-shown surface owner w = elim (Result-cases (owned surface owner w)) [
    | inl (s, e) ↦
        rw (e, unmount) (ap (λ (f : View S). (f, success tt)) (erase-view surface w.surfaces))
    | inr (err, e) ↦ rw (e, unmount) refl
  ]

  command-shown :
      (surface owner : String) (id : ℕ) (name : String) (arguments : J) (w : Store S)
      → shown (command k surface owner id name arguments w)
        ≡ specified k (commanding surface owner id name arguments) (view w)
  unfolding command specified owned
  command-shown surface owner id name arguments w = elim (Result-cases (owned surface owner w)) [
    | inl (s, e) ↦ elim (Bool-cases (contains id s.nodes)) [
      | inl c ↦
          rw (e, c, command)
            (visited-shown surface id (commanded k name arguments) s
              (record w { current = (s.id, s.assets) }) (owned-success surface owner w s e).0)
      | inr c ↦ rw (e, c, command) refl
    ]
    | inr (err, e) ↦ rw (e, command) refl
  ]

  perform-shown :
      (c : Call J) (w : Store S)
      → AreSound w
      → shown (perform k c w, answer k c w) ≡ specified k c (view w)
  unfolding specified update
  perform-shown (mounting surface owner assets tree) w h = mount-shown surface owner assets tree w
  perform-shown (patching surface owner id properties) w h =
      patch-shown surface owner id properties w
  perform-shown (unmounting surface owner) w h = unmount-shown surface owner w
  perform-shown (leaving owner) w h =
      ap (λ (f : View S). (f, success tt))
        (fun_ext (λ id.
          ap (find id) (unmount_owner_all-eq owner w).0 ∙ others-find owner id w.surfaces h.keyed))
  perform-shown (commanding surface owner id name arguments) w h =
      command-shown surface owner id name arguments w
  perform-shown updating w h =
      ap (λ (f : View S). (f, success tt))
        (fun_ext (λ id.
          ap (find id) (update_all-surfaces w.surfaces (record w { surfaces = [] }))
          ∙ find-map id w.surfaces))

  perform_all-view :
      (calls : List (Call J)) (w : Store S)
      → AreSound w
      → (view (perform_all k calls w), answer_all k calls w) ≡ replay k calls (view w)
  unfolding perform_all answer_all replay
  perform_all-view [] w h = refl
  perform_all-view (c ∷ calls) w h =
      let p = perform-shown c w h in
      let q = perform_all-view calls (perform k c w) (perform-AreSound k c w h) in
      ap (push k (answer k c w)) q
      ∙ ap (λ (r : View S × Result (Unit {0})). push k r.1 (replay k calls r.0)) p

  -- Over any calls from the empty store, the surfaces that are found under every identity and all the
  -- answers are those of the abstract map of `Abstract` under the same calls: a mount sets one key, a patch
  -- or a command acts on the tree under one key, an unmount deletes one key, a departure those of its
  -- owner, and an update acts on every tree.
  pub perform_all-replay :
      (calls : List (Call J))
      → (view (perform_all k calls initial), answer_all k calls initial)
        ≡ replay k calls (λ id. none)
  unfolding find
  perform_all-replay calls = perform_all-view calls initial (record { sound = tt; keyed = tt })
