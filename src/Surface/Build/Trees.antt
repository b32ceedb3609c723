-- ===== src/Surface/Build/Trees.antt =====
-- `build` adds exactly the identities of the tree that it returns, within the bounds.
use workpane.Prelude.{
  ℕ, suc, ◌+◌, ◌≤◌, ◌≡◌, Bool, true, false, ◌&&◌, List, [], ◌∷◌, ◌++◌, Option, arith, Bool-cases,
  inl, inr, subst,
}
use workpane.Result.{success, Result-cases}
use workpane.Surface.Tree.{Component, Children, nil, absent, child, ids, ids_below, height, tallest}
use workpane.Surface.Classes.{Classes}
use workpane.Surface.Build.{Staged, Placement, Built, build_children, maximum_depth, has_value}
use workpane.Surface.Build.Bounds.{Adds, Adds-refl, Adds-trans}

module _ {S J : Type 0} (k : Classes S J) (existing : Option (List ℕ)) where
  -- A subtree at a depth, and the children of a node at a depth.
  pub record IsBuilt (depth : ℕ) (before : Staged) (c : Component S) (after : Staged) : Type 0 where
    pub adds : Adds existing before after (ids c)
    pub deep : depth + height c ≤ maximum_depth + 1

  pub record AreBuilt (depth : ℕ) (before : Staged) (cs : Children S) (after : Staged)
      : Type 0 where
    pub adds : Adds existing before after (ids_below cs)
    pub deep : depth + 1 + tallest cs ≤ maximum_depth + 1

  AreBuilt-absent :
      (depth : ℕ) (before after : Staged) (place : Placement) (cs : Children S)
      → AreBuilt depth (record before { placements = before.placements ++ place ∷ [] }) cs after
      → AreBuilt depth before (absent cs) after
  unfolding ids tallest
  AreBuilt-absent depth before after place cs b = record {
    adds = record {
      nodes = b.adds.nodes;
      distinct = b.adds.distinct;
      apart = b.adds.apart;
      staying = b.adds.staying;
      count = b.adds.count;
    };
    deep = b.deep;
  }

  AreBuilt-child :
      (depth : ℕ) (before next after : Staged) (c : Component S) (cs : Children S)
      → IsBuilt (depth + 1) before c next
      → AreBuilt depth next cs after
      → AreBuilt depth before (child c cs) after
  unfolding ids tallest
  AreBuilt-child depth before next after c cs a b = record {
    adds = Adds-trans existing before next after (ids c) (ids_below cs) a.adds b.adds;
    deep = omega (arith, a.deep, b.deep);
  }

  -- What the loop over the children has passed through, in its three cases.
  module _ (build_child : J → Staged → Built k existing) (holder depth index : ℕ) (before : Staged)
      (cs : Children S) (after : Staged) (w : Bool) where
    children-nil :
        build_children k existing build_child holder depth [] index before ≡ success (cs, after, w)
        → (nil ≡ cs) × (before ≡ after)
    unfolding build_children
    children-nil h = ground arith

    module _ (spec : J) (specs : List J)
        (h : build_children k existing build_child holder depth (spec ∷ specs) index before
          ≡ success (cs, after, w)) where
      children-absent :
          (has_value existing && k.is_kept spec) ≡ true
          → (place : Placement) × (rest : Children S) × (w' : Bool) × (build_children k existing
                build_child holder depth specs
                (suc index)
                (record before { placements = before.placements ++ place ∷ [] })
              ≡ success (rest, after, w'))
            × (absent rest ≡ cs)
      unfolding build_children
      children-absent kept =
          let place : Placement = record {
            holder = holder;
            index = index;
            kept = k.kept_id spec;
            depth = depth + 1;
          } in
          let h' = rw (kept, build_children) at h in
          elim (Result-cases (
            build_children k existing build_child holder depth specs (suc index)
              (record before { placements = before.placements ++ place ∷ [] }))) [
                | inl ((rest, last, w'), e) ↦
                    let h'' = rw e at h' in (place, rest, w', rw e (ground arith), ground arith)
                | inr (err, e) ↦ let h'' = rw e at h' in absurd (cc)
              ]

      children-child :
          (has_value existing && k.is_kept spec) ≡ false
          → (c : Component S) × (next : Staged) × (rest : Children S) × (w' : Bool) × (build_child
                spec before
              ≡ success (c, next))
            × (build_children k existing build_child holder depth specs (suc index) next
                ≡ success (rest, after, w'))
            × (child c rest ≡ cs)
      unfolding build_children
      children-child new =
          let h' = rw (new, build_children) at h in
          elim (Result-cases (build_child spec before)) [
            | inr (err, e) ↦ let h'' = rw e at h' in absurd (cc)
            | inl ((c, next), e) ↦
                elim (Result-cases
                  (build_children k existing build_child holder depth specs (suc index) next)) [
                    | inr (err, e') ↦ let h'' = rw (e, e') at h' in absurd (cc)
                    | inl ((rest, last, w'), e') ↦
                        let h'' = rw (e, e') at h' in
                        (c, next, rest, w', e, rw e' (ground arith), ground arith)
                  ]
          ]

  pub build_children-AreBuilt :
      (build_child : J → Staged → Built k existing) (depth : ℕ)
      → ((spec : J) (before : Staged) (c : Component S) (after : Staged)
          → build_child spec before ≡ success (c, after)
          → IsBuilt (depth + 1) before c after)
      → depth ≤ maximum_depth
      → (holder : ℕ) (specs : List J) (index : ℕ) (before : Staged) (cs : Children S)
        (after : Staged) (w : Bool)
      → build_children k existing build_child holder depth specs index before
        ≡ success (cs, after, w)
      → AreBuilt depth before cs after
  build_children-AreBuilt bc depth each d holder [] index before cs after w h =
      let (e, e') = children-nil bc holder depth index before cs after w h in
      subst (λ (x : Children S). AreBuilt depth before x after) e
        (subst (λ (x : Staged). AreBuilt depth before nil x) e'
          (record {
            adds = unfold ids in Adds-refl existing before;
            deep = unfold tallest in omega arith;
          }))
  build_children-AreBuilt bc depth each d holder (spec ∷ specs) index before cs after w h =
      elim (Bool-cases (has_value existing && k.is_kept spec)) [
        | inl kept ↦
            let (place, rest, w', e, e') =
              children-absent bc holder depth index before cs after w spec specs h kept in
            subst (λ (x : Children S). AreBuilt depth before x after) e'
              (AreBuilt-absent depth before after place rest (
                build_children-AreBuilt bc depth each d holder specs (suc index) _ rest after w' e))
        | inr new ↦
            let (c, next, rest, w', b, e, e') =
              children-child bc holder depth index before cs after w spec specs h new in
            subst (λ (x : Children S). AreBuilt depth before x after) e'
              (AreBuilt-child depth before next after c rest (each spec before c next b) (
                build_children-AreBuilt bc depth each d holder specs (suc index) next rest after w'
                  e))
      ]
