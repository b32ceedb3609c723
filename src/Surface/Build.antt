-- ===== src/Surface/Build.antt =====
-- `SurfaceStore::build` of src/ui/model/SurfaceStore.cpp: a component and its subtree from the JSON
-- that a plugin sends. What is staged is threaded through; a refusal throws it away.
pub mod Bounds
pub mod Trees
pub mod Passed
pub mod Fuel
pub mod Examples
use Prim.Native.String.{String}
use workpane.Prelude.{
  ℕ, zero, suc, ◌+◌, Bool, true, false, not, ◌&&◌, ◌||◌, List, [], ◌∷◌, ◌++◌, Option, none, some,
  length, ltb, leb, if◌then◌else◌,
}
use workpane.Result.{Error, Result, success, failure, text, number, ◌>>=◌, ◌>>◌}
use workpane.Surface.Tree.{Component, Children, node, nil, absent, child, size, contains}
use workpane.Surface.Classes.{Classes, NodeSpec, apply}

abbrev pub maximum_depth : ℕ
maximum_depth = 64

abbrev pub maximum_nodes : ℕ
maximum_nodes = 50000

-- A place for a kept node: the component that holds it, by its identity.
pub record Placement : Type 0 where
  pub holder : ℕ
  pub index : ℕ
  pub kept : ℕ
  pub depth : ℕ

-- `nodes` are the keys of the staged map, in the order in which they were added; each leads to the
-- component with that identity. `waiting` names the components whose children are proven later.
pub record Staged : Type 0 where
  pub nodes : List ℕ
  pub placements : List Placement
  pub waiting : List ℕ
  pub staying : ℕ

abbrev pub nothing_staged : Staged
nothing_staged = record { nodes = []; placements = []; waiting = []; staying = 0 }

abbrev pub too_deep : ℕ → Error
too_deep depth = record {
  code = "ui_tree_too_deep";
  message = "A tree nests deeper than the declared bound";
  detail = number depth ∷ [];
}

abbrev pub too_large : ℕ → Error
too_large count = record {
  code = "ui_tree_too_large";
  message = "A tree carries more nodes than the declared bound";
  detail = number count ∷ [];
}

abbrev pub kind_unknown : String → Error
kind_unknown kind = record {
  code = "ui_kind_unknown";
  message = "A node names a component kind nobody registered";
  detail = text kind ∷ [];
}

abbrev pub node_duplicate : ℕ → Error
node_duplicate id = record {
  code = "ui_node_duplicate";
  message = "Two nodes of one surface share an identity";
  detail = number id ∷ [];
}

abbrev pub children_refused : String → Error
children_refused kind = record {
  code = "ui_children_refused";
  message = "A node carries more children than its kind accepts";
  detail = text kind ∷ [];
}

abbrev pub guard : Bool → Error → Result (Unit {0})
guard true e = success tt
guard false e = failure e

abbrev pub or_fail {ℓ} : {A : Type ℓ} → Option A → Error → Result A
or_fail none e = failure e
or_fail (some a) e = success a

-- `existing != nullptr && existing->nodes.contains(id)`.
abbrev pub taken : Option (List ℕ) → ℕ → Bool
taken none id = false
taken (some nodes) id = contains id nodes

abbrev pub has_value : Option (List ℕ) → Bool
has_value none = false
has_value (some nodes) = true

module _ {S J : Type 0} (k : Classes S J) (existing : Option (List ℕ)) where
  -- What a subtree comes to, with what is staged behind it.
  abbrev pub Built : Type 0
  Built = Result (Component S × Staged)

  -- The children with what is staged behind them, and whether one of them is kept.
  abbrev pub BuiltChildren : Type 0
  BuiltChildren = Result (Children S × Staged × Bool)

  -- The loop over the children of the component `holder`, where `build_child` is the recursive call.
  unfoldable pub build_children : (J → Staged → Built) → ℕ → ℕ → List J → ℕ → Staged → BuiltChildren
  build_children build_child holder depth [] index staged = success (nil, staged, false)
  build_children build_child holder depth (spec ∷ specs) index staged =
      elim (has_value existing && k.is_kept spec) [
        | true ↦ do
          let place : Placement = record {
            holder = holder;
            index = index;
            kept = k.kept_id spec;
            depth = depth + 1;
          }
          (rest, last, waits) ←
              build_children build_child holder depth specs (suc index)
                (record staged { placements = staged.placements ++ place ∷ [] })
          success (absent rest, last, true)
        | false ↦ do
          (c, next) ← build_child spec staged
          (rest, last, waits) ← build_children build_child holder depth specs (suc index) next
          success (child c rest, last, waits)
      ]

  -- The end of `build`: a component that waits for a kept child is proven later.
  unfoldable pub prove : Bool → ℕ → S → Children S → Staged → Built
  prove true id state children staged =
      success (node id state children, record staged { waiting = staged.waiting ++ id ∷ [] })
  prove false id state children staged =
      k.validate_children state (size children) >> success (node id state children, staged)

  -- `build` at a depth, with one unit of fuel for each level down to the first that is too deep.
  unfoldable pub build : ℕ → ℕ → J → Staged → Built
  build zero depth spec staged = failure (too_deep depth)
  build (suc levels) depth spec staged = do
    guard (not (ltb maximum_depth depth)) (too_deep depth)
    guard (ltb (staged.staying + length staged.nodes) maximum_nodes)
        (too_large (staged.staying + length staged.nodes))
    n ← k.read_node spec
    created ← or_fail (k.create n.kind n.identity) (kind_unknown n.kind)
    guard (not (contains n.identity staged.nodes || taken existing n.identity))
        (node_duplicate n.identity)
    state ← apply k n.properties created
    guard (leb (length n.children) (k.child_limit state)) (children_refused n.kind)
    (children, last, waits) ←
        build_children (build levels (depth + 1)) n.identity depth n.children 0
          (record staged { nodes = staged.nodes ++ n.identity ∷ [] })
    prove waits n.identity state children last
