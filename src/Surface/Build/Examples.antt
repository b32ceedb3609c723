-- ===== src/Surface/Build/Examples.antt =====
-- Kinds of components that hold a number, a small tree of them, and what is built and patched.
use workpane.Prelude.{
  arith, ℕ, ◌+◌, ◌≡◌, refl, Bool, true, false, [], ◌∷◌, none, some, ltb, if◌then◌else◌,
}
use workpane.Result.{Error, Result, success, failure}
use workpane.Surface.Tree.{Component, node, nil, child, contains}
use workpane.Surface.Classes.{Classes, NodeSpec, apply, patch}
use workpane.Surface.Build.{Staged, build, build_children, prove, nothing_staged, node_duplicate}
use workpane.Surface.Build.Trees.{IsBuilt}
use workpane.Surface.Build.Fuel.{build-levels}
use workpane.Surface.Build.Passed.{build-IsBuilt}
use workpane.Surface.Visit.{visit_at}

pub data Sketch : Type 0 where
  leaf : ℕ → ℕ → Sketch
  pair : ℕ → ℕ → Sketch → Sketch → Sketch

abbrev pub refusal : Error
refusal = record { code = "large"; message = "The number is too large"; detail = [] }

abbrev read_sketch : Sketch → Result (NodeSpec Sketch)
read_sketch (leaf id n) =
    success (record { identity = id; kind = "number"; properties = leaf id n; children = [] })
read_sketch (pair id n a b) =
    success
      (record { identity = id; kind = "number"; properties = leaf id n; children = a ∷ b ∷ [] })

abbrev is_leaf : Sketch → Bool
is_leaf (leaf id n) = true
is_leaf (pair id n a b) = false

abbrev read_number : Sketch → ℕ → ℕ × Result (Unit {0})
read_number (leaf id n) s = (n, if ltb 9 n then failure refusal else success tt)
read_number (pair id n a b) s = (s, failure refusal)

abbrev pub numbers : Classes ℕ Sketch
numbers = record {
  read_node = read_sketch;
  is_kept = λ j. false;
  kept_id = λ j. 0;
  is_object = is_leaf;
  create = λ kind id. some 0;
  read = read_number;
  applied = λ s. s;
  restore = λ before after. before;
  child_limit = λ s. 2;
  validate_children = λ s n. success tt;
  command = λ name arguments s. (s + 1, success tt);
  update = λ s. s + 2;
}

abbrev pub sketch : Sketch
sketch = pair 1 5 (leaf 2 6) (leaf 3 7)

abbrev pub tree : Component ℕ
tree = node 1 5 (child (node 2 6 nil) (child (node 3 7 nil) nil))

abbrev pub staged : Staged
staged = record { nodes = 1 ∷ 2 ∷ 3 ∷ []; placements = []; waiting = []; staying = 0 }

pub build-sketch : build numbers none 65 0 sketch nothing_staged ≡ success (tree, staged)
unfolding build contains apply build_children prove
build-sketch = refl

build_twice :
    build numbers none 65 0 (pair 1 5 (leaf 2 6) (leaf 2 7)) nothing_staged
    ≡ failure (node_duplicate 2)
unfolding build contains apply build_children prove
build_twice = refl

build-IsBuilt_example : IsBuilt numbers none 0 nothing_staged tree staged
build-IsBuilt_example =
    build-IsBuilt numbers none 65 0 sketch nothing_staged tree staged build-sketch

patch_refused : (visit_at 2 (patch numbers (leaf 0 10)) tree).1 ≡ some (failure refusal)
unfolding visit_at patch
patch_refused = refl

build-levels_example : build numbers none 66 0 ≡ build numbers none 65 0
build-levels_example = build-levels numbers none 65 0 (omega arith)
