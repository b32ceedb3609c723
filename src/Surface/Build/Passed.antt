-- ===== src/Surface/Build/Passed.antt =====
-- What `build` has passed through when it succeeds.
use workpane.Prelude.{
  ℕ, zero, suc, ◌+◌, ◌≤◌, ◌<◌, ◌≡◌, Bool, true, false, not, ◌||◌, List, [], ◌∷◌, ◌++◌, Option,
  length, ltb, leb, arith, refl, ap, ◌∙◌, sym, subst,
}
use workpane.Result.{Error, success, >>=-eq-success}
use workpane.Surface.Tree.{
  Component, Children, node, ids, ids_below, height, size, contains, Distinct,
}
use workpane.Surface.Classes.{Classes, NodeSpec, apply}
use workpane.Surface.Build.{
  Staged, taken, guard, or_fail, build, build_children, prove, maximum_depth, maximum_nodes,
  too_deep, too_large, kind_unknown, node_duplicate, children_refused,
}
use workpane.Surface.Build.Bounds.{Adds, Adds-trans, Adds-single}
use workpane.Surface.Build.Trees.{IsBuilt, build_children-AreBuilt}

guard-eq-success : (b : Bool) (e : Error) {u : Unit {0}} → guard b e ≡ success u → b ≡ true
guard-eq-success true e h = refl
guard-eq-success false e h = cc

module _ {S J : Type 0} (k : Classes S J) (existing : Option (List ℕ)) (levels depth : ℕ) (spec : J)
    (before : Staged) (c : Component S) (after : Staged) where
  record Passed : Type 0 where
    n : NodeSpec J
    state : S
    children : Children S
    last : Staged
    waits : Bool
    depth_fits : depth ≤ maximum_depth
    room : before.staying + length before.nodes < maximum_nodes
    fresh : contains n.identity before.nodes ≡ false
    apart : taken existing n.identity ≡ false
    below :
        build_children k existing
          (build k existing levels (depth + 1))
          n.identity
          depth
          n.children
          0
          (record before { nodes = before.nodes ++ n.identity ∷ [] })
        ≡ success (children, last, waits)
    proven : prove k existing waits n.identity state children last ≡ success (c, after)

  build-Passed : build k existing (suc levels) depth spec before ≡ success (c, after) → Passed
  unfolding build
  build-Passed h₀ =
      let (u, e₁, h₁) =
        >>=-eq-success (guard (not (ltb maximum_depth depth)) (too_deep depth)) _ h₀ in
      let (v, e₂, h₂) =
        >>=-eq-success
          (guard (ltb (before.staying + length before.nodes) maximum_nodes)
            (too_large (before.staying + length before.nodes)))
          _ h₁ in
      let (n, e₃, h₃) = >>=-eq-success (k.read_node spec) _ h₂ in
      let (created, e₄, h₄) =
        >>=-eq-success (or_fail (k.create n.kind n.identity) (kind_unknown n.kind)) _ h₃ in
      let (w, e₅, h₅) =
        >>=-eq-success
          (guard (not (contains n.identity before.nodes || taken existing n.identity))
            (node_duplicate n.identity))
          _ h₄ in
      let (state, e₆, h₆) = >>=-eq-success (apply k n.properties created) _ h₅ in
      let (x, e₇, h₇) =
        >>=-eq-success
          (guard (leb (length n.children) (k.child_limit state)) (children_refused n.kind)) _ h₆ in
      let ((children, last, waits), e₈, h₈) =
        >>=-eq-success
          (build_children k existing (build k existing levels (depth + 1)) n.identity depth
            n.children 0 (record before { nodes = before.nodes ++ n.identity ∷ [] }))
          _ h₇ in
      let g₁ = guard-eq-success _ _ e₁ in
      let g₂ = guard-eq-success _ _ e₂ in
      let g₅ = guard-eq-success _ _ e₅ in
      record {
        n = n;
        state = state;
        children = children;
        last = last;
        waits = waits;
        depth_fits = ground arith;
        room = ground arith;
        fresh = ground arith;
        apart = ground arith;
        below = e₈;
        proven = h₈;
      }

module _ {S J : Type 0} (k : Classes S J) (existing : Option (List ℕ)) where
  prove-success :
      (waits : Bool) (id : ℕ) (state : S) (children : Children S) (last : Staged) (c : Component S)
      (after : Staged)
      → prove k existing waits id state children last ≡ success (c, after)
      → (node id state children ≡ c) × (after.nodes ≡ last.nodes) × (after.staying ≡ last.staying)
  unfolding prove
  prove-success true id state children last c after h = (ground arith, ground arith, ground arith)
  prove-success false id state children last c after h =
      let (u, e, h') = >>=-eq-success (k.validate_children state (size children)) _ h in
      (ground arith, ground arith, ground arith)

  Adds-extend :
      (r s t : Staged) (xs : List ℕ)
      → Adds existing r s xs
      → t.nodes ≡ s.nodes
      → t.staying ≡ s.staying
      → Adds existing r t xs
  Adds-extend r s t xs a e f = record {
    nodes = e ∙ a.nodes;
    distinct = λ d. subst Distinct (sym e) (a.distinct d);
    apart = a.apart;
    staying = f ∙ a.staying;
    count = λ h. omega (arith, a.count h, ap (length {A = ℕ}) e);
  }

  Passed-IsBuilt :
      (levels depth : ℕ) (spec : J) (before : Staged) (c : Component S) (after : Staged)
      → ((spec : J) (before : Staged) (c : Component S) (after : Staged)
          → build k existing levels (depth + 1) spec before ≡ success (c, after)
          → IsBuilt k existing (depth + 1) before c after)
      → Passed k existing levels depth spec before c after
      → IsBuilt k existing depth before c after
  unfolding ids height
  Passed-IsBuilt levels depth spec before c after each p =
      let mid : Staged = record before { nodes = before.nodes ++ p.n.identity ∷ [] } in
      let b =
        build_children-AreBuilt k existing (build k existing levels (depth + 1)) depth each
          p.depth_fits p.n.identity p.n.children 0 mid p.children p.last p.waits p.below in
      let (e, f, g) =
        prove-success p.waits p.n.identity p.state p.children p.last c after p.proven in
      subst (λ (x : Component S). IsBuilt k existing depth before x after) e
        (record {
          adds =
              Adds-extend before p.last after (p.n.identity ∷ ids_below p.children)
                (Adds-trans existing before mid p.last (p.n.identity ∷ []) (ids_below p.children)
                  (Adds-single existing before p.n.identity p.room p.fresh p.apart) b.adds)
                f g;
          deep = omega (arith, b.deep);
        })

  build-zero :
      (depth : ℕ) (spec : J) (before : Staged) {r : Component S × Staged}
      → build k existing zero depth spec before ≡ success r
      → ⊥
  unfolding build
  build-zero depth spec before h = cc

  -- Whenever `build` succeeds at a depth, it has added to what was staged exactly the identities of the
  -- tree that it returns, in the order of the tree: none of them twice or among the existing ones,
  -- no node of the tree deeper than 64 and no more than 50000 nodes in all.
  pub build-IsBuilt :
      (levels depth : ℕ) (spec : J) (before : Staged) (c : Component S) (after : Staged)
      → build k existing levels depth spec before ≡ success (c, after)
      → IsBuilt k existing depth before c after
  build-IsBuilt zero depth spec before c after h = absurd (build-zero depth spec before h)
  build-IsBuilt (suc levels) depth spec before c after h =
      Passed-IsBuilt levels depth spec before c after (build-IsBuilt levels (depth + 1))
        (build-Passed k existing levels depth spec before c after h)
