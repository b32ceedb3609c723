-- ===== src/Surface/Store/Refusals.antt =====
-- What a call that is refused leaves.
use Prim.Native.String.{String}
use package.text.Mathlib.Text.{◌==◌ as str_eq}
use workpane.Prelude.{
  true, false, ℕ, ◌+◌, ◌||◌, none, some, ◌≡◌, ◌⊎◌, refl, sym, ◌∙◌, ap, Bool-cases, Option-cases,
  inl, inr,
}
use workpane.Result.{Error, success, failure, Result-cases}
use workpane.Surface.Tree.{Component, contains, ids}
use workpane.Surface.Classes.{Classes, patch as patch_component}
use workpane.Surface.Visit.{visit_at}
use workpane.Surface.Build.{build, maximum_depth, nothing_staged}
use workpane.Surface.Store.{
  Surface, Store, find, owned, unmount, is_foreign, mount, put_root, patch,
}
use workpane.Surface.Store.Calls.{
  Call, mounting, patching, unmounting, leaving, commanding, updating, is_command, perform,
}
use workpane.Surface.Store.Lookup.{owned-success}
use workpane.Surface.Classes.{put_back, patch-failure as component-failure}
use workpane.Surface.Visit.{
  visit_at-failure, visit_at-none, visit_at-answers, answers, changed_at, changed_at-absent,
}
use workpane.Surface.Store.{answered}
use workpane.Surface.Store.Calls.{answer}

module _ {S : Type 0} where
  unmount-failure :
      (surface owner : String) (w : Store S) (e : Error)
      → (unmount surface owner w).1 ≡ failure e
      → (unmount surface owner w).0 ≡ w
  unfolding unmount
  unmount-failure surface owner w e h = elim (Result-cases (owned surface owner w)) [
    | inl (s, g) ↦ let h' = rw (g, unmount) at h in absurd (cc)
    | inr (err, g) ↦ rw (g, unmount) refl
  ]

module _ {S J : Type 0} (k : Classes S J) where
  -- A store in which the properties of one component of an owner have been put back after a read.
  pub record IsPutBack (surface owner : String) (id : ℕ) (properties : J) (w w' : Store S)
      : Type 0 where
    pub target : Surface S
    pub found : find surface w.surfaces ≡ some target
    pub owned_by : str_eq target.owner owner ≡ true
    pub held : contains id target.nodes ≡ true
    pub left : w' ≡ record w {
      surfaces = put_root surface (changed_at id (put_back k properties) target.root) w.surfaces;
    }

  -- What a refused call leaves: the store as it was, or for a patch that reached a component one that differs
  -- in the state of that component.
  abbrev pub Leaves : Call J → Store S → Store S → Type 0
  Leaves (patching surface owner id properties) w w' =
      (w' ≡ w) ⊎ IsPutBack surface owner id properties w w'
  Leaves (mounting surface owner assets tree) w w' = w' ≡ w
  Leaves (unmounting surface owner) w w' = w' ≡ w
  Leaves (leaving owner) w w' = w' ≡ w
  Leaves (commanding surface owner id name arguments) w w' = w' ≡ w
  Leaves updating w w' = w' ≡ w

  patched :
      (surface owner : String) (id : ℕ) (properties : J) (w : Store S) (e : Error) (s : Surface S)
      → owned surface owner w ≡ success s
      → contains id s.nodes ≡ true
      → answered surface id (visit_at id (patch_component k properties) s.root).1 ≡ failure e
      → Leaves (patching surface owner id properties) w (record w {
        surfaces =
            put_root surface (visit_at id (patch_component k properties) s.root).0 w.surfaces;
      })
  patched surface owner id properties w e s g c h =
      let (f, o) = owned-success surface owner w s g in
      let reached = visit_at id (patch_component k properties) s.root in
      let p : reached.0 ≡ changed_at id (put_back k properties) s.root =
        elim (Option-cases reached.1) [
          | inl a ↦
              let absent : contains id (ids s.root) ≡ false =
                sym (visit_at-answers id (patch_component k properties) s.root)
                ∙ ap (answers id (patch_component k properties)) a in
              visit_at-none id (patch_component k properties) s.root a
              ∙ sym (changed_at-absent id (put_back k properties) s.root absent)
          | inr (r, a) ↦
              let r' : r ≡ failure e = rw a at h in
              visit_at-failure id (patch_component k properties) (put_back k properties) e
                (λ n x. component-failure k properties n x e) s.root (a ∙ ap some r')
        ] in
      inr (record {
        target = s;
        found = f;
        owned_by = o;
        held = c;
        left = ap (λ (x : Component S). record w { surfaces = put_root surface x w.surfaces }) p;
      })

  patch-failure :
      (surface owner : String) (id : ℕ) (properties : J) (w : Store S) (e : Error)
      → (patch k surface owner id properties w).1 ≡ failure e
      → Leaves (patching surface owner id properties) w (patch k surface owner id properties w).0
  unfolding patch
  patch-failure surface owner id properties w e h = elim (Result-cases (owned surface owner w)) [
    | inl (s, g) ↦ elim (Bool-cases (contains id s.nodes)) [
      | inl c ↦ elim (Bool-cases (k.is_object properties)) [
        | inl d ↦
            rw (g, c, d, patch)
              (patched surface owner id properties w e s g c (rw (g, c, d, patch) at h))
        | inr d ↦ rw (g, c, d, patch) (inl refl)
      ]
      | inr c ↦ rw (g, c, patch) (inl refl)
    ]
    | inr (err, g) ↦ rw (g, patch) (inl refl)
  ]

  mount-failure :
      (surface owner assets : String) (tree : J) (w : Store S) (e : Error)
      → (mount k surface owner assets tree w).1 ≡ failure e
      → (mount k surface owner assets tree w).0 ≡ w
  unfolding mount
  mount-failure surface owner assets tree w e h =
      elim (Bool-cases (str_eq surface "" || str_eq owner "")) [
        | inl a ↦ rw (a, mount) refl
        | inr a ↦ elim (Bool-cases (is_foreign k owner (find surface w.surfaces))) [
          | inl b ↦ rw (a, b, mount) refl
          | inr b ↦ elim (Result-cases (build k none (maximum_depth + 1) 0 tree nothing_staged)) [
            | inl ((root, staged), c) ↦ let h' = rw (a, b, c, mount) at h in absurd (cc)
            | inr (e', c) ↦ rw (a, b, c, mount) refl
          ]
        ]
      ]

  -- A mount or unmount that is refused, for whatever reason, leaves the store exactly as it was; so does a
  -- refused patch, or it has reached a component of its owner, and the store differs only in the state of
  -- that component, into which what was kept of it before the read has been put back.
  pub perform-failure :
      (c : Call J) (w : Store S) (e : Error)
      → is_command k c ≡ false
      → answer k c w ≡ failure e
      → Leaves c w (perform k c w)
  perform-failure (mounting surface owner assets tree) w e n h =
      mount-failure surface owner assets tree w e h
  perform-failure (patching surface owner id properties) w e n h =
      patch-failure surface owner id properties w e h
  perform-failure (unmounting surface owner) w e n h = unmount-failure surface owner w e h
  perform-failure (leaving owner) w e n h = cc
  perform-failure (commanding surface owner id name arguments) w e n h = cc
  perform-failure updating w e n h = cc
