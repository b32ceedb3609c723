-- ===== src/Surface/Build/Fuel.antt =====
-- The fuel of `build` is never short.
use workpane.Prelude.{
  ℕ, zero, suc, ◌+◌, ◌≤◌, ◌≡◌, true, not, List, Option, ltb, arith, ap, refl, ◌∷◌, [], ◌++◌, length,
  leb, ◌||◌,
}
use workpane.Result.{failure, ◌>>=◌, ◌>>◌}
use workpane.Surface.Tree.{contains}
use workpane.Surface.Classes.{Classes, apply}
use workpane.Surface.Build.{
  Staged, Built, build, build_children, guard, or_fail, prove, taken, maximum_depth, maximum_nodes,
  too_deep, too_large, kind_unknown, node_duplicate, children_refused,
}

module _ {S J : Type 0} (k : Classes S J) (existing : Option (List ℕ)) where
  -- `build` over any way to build a child.
  abbrev build_by : (J → Staged → Built k existing) → ℕ → J → Staged → Built k existing
  build_by build_child depth spec staged = do
    guard (not (ltb maximum_depth depth)) (too_deep depth)
    guard (ltb (staged.staying + length staged.nodes) maximum_nodes)
        (too_large (staged.staying + length staged.nodes))
    n ← k.read_node spec
    created ← or_fail (k.create n.kind n.identity) (kind_unknown n.kind)
    guard (not (contains n.identity staged.nodes || taken existing n.identity))
        (node_duplicate n.identity)
    state ← apply k n.properties created
    guard (leb (length n.children) (k.child_limit state)) (children_refused n.kind)
    (children, last, waits) ←
        build_children k existing build_child n.identity depth n.children 0
          (record staged { nodes = staged.nodes ++ n.identity ∷ [] })
    prove k existing waits n.identity state children last

  too_deep-build :
      (levels depth : ℕ) (spec : J) (staged : Staged)
      → maximum_depth + 1 ≤ depth
      → build k existing levels depth spec staged ≡ failure (too_deep depth)
  unfolding build
  too_deep-build zero depth spec staged h = refl
  too_deep-build (suc levels) depth spec staged h =
      let e : ltb maximum_depth depth ≡ true = ground arith in rw e refl

  -- With as many levels as there are down to the first depth that is refused, one more changes nothing.
  pub build-levels :
      (levels depth : ℕ)
      → maximum_depth + 1 ≤ levels + depth
      → build k existing (suc levels) depth ≡ build k existing levels depth
  unfolding build
  build-levels zero depth h =
      λ i spec staged. too_deep-build 1 depth spec staged (omega (arith, h)) i
  build-levels (suc levels) depth h =
      ap (λ (f : J → Staged → Built k existing). build_by f depth)
        (build-levels levels (depth + 1) (omega (arith, h)))
