-- ===== src/Surface/Store.antt =====
-- `SurfaceStore` of src/ui/model/SurfaceStore.cpp: the trees that plugins have mounted, each owned by
-- one plugin. The map from node identities to components is the list of its keys: a key leads to the
-- component of the tree with that identity, which the invariant of `Store/Soundness` justifies. The map
-- of surfaces is a list in the order of mounting, so the order in which `unmountOwner`, `unmountAll`
-- or `update` walk it is not modelled. `replaceChildren` is left out.
pub mod Calls
pub mod Lookup
pub mod Keys
pub mod Isolation
pub mod Soundness
pub mod Refusals
pub mod Abstract
pub mod Refinement
pub mod Departure
pub mod Return
pub mod Examples
use Prim.Native.String.{String}
use package.text.Mathlib.Text.{◌==◌ as str_eq}
use workpane.Prelude.{
  ℕ, ◌+◌, Bool, true, false, not, ◌||◌, List, [], ◌∷◌, ◌++◌, Option, none, some, map, ◌==◌,
  if◌then◌else◌,
}
use workpane.Result.{Error, Result, success, failure, Part, text, number}
use workpane.Surface.Tree.{Component, Children, node, nil, absent, child, ids, size, contains}
use workpane.Surface.Classes.{Classes, patch as patch_component}
use workpane.Surface.Visit.{visit_at}
use workpane.Surface.Build.{Staged, build, maximum_depth, nothing_staged}

-- src/ui/model/Surface.h.
pub record Surface (S : Type 0) : Type 0 where
  pub id : String
  pub owner : String
  pub assets : String
  pub root : Component S
  pub nodes : List ℕ

-- The store with what the render context has seen of it: its surface, and the components that were
-- detached, each with the surface that was set.
pub record Store (S : Type 0) : Type 0 where
  pub surfaces : List (Surface S)
  pub current : String × String
  pub detached : List (String × ℕ)

abbrev pub surface_invalid : String → Error
surface_invalid surface = record {
  code = "ui_surface_invalid";
  message = "A surface needs an identity and an owner";
  detail = text surface ∷ [];
}

abbrev pub surface_foreign : String → Error
surface_foreign surface = record {
  code = "ui_surface_foreign";
  message = "A surface belongs to another plugin";
  detail = text surface ∷ [];
}

abbrev pub surface_unknown : String → Error
surface_unknown surface = record {
  code = "ui_surface_unknown";
  message = "No surface is mounted under that identity";
  detail = text surface ∷ [];
}

abbrev pub node_unknown : String → ℕ → Error
node_unknown surface id = record {
  code = "ui_node_unknown";
  message = "A surface has no node with that identity";
  detail = text surface ∷ text ":" ∷ number id ∷ [];
}

abbrev pub properties_invalid : String → ℕ → Error
properties_invalid surface id = record {
  code = "ui_properties_invalid";
  message = "Node properties must be an object";
  detail = text surface ∷ text ":" ∷ number id ∷ [];
}

-- A pointer of the map always leads to a component of the tree, so `none` does not occur.
abbrev pub answered : String → ℕ → Option (Result (Unit {0})) → Result (Unit {0})
answered surface id none = failure (node_unknown surface id)
answered surface id (some r) = r

module _ {S : Type 0} where
  abbrev pub initial : Store S
  initial = record { surfaces = []; current = ("", ""); detached = [] }

  -- `m_surfaces.find`, and the map without a key.
  unfoldable pub find : String → List (Surface S) → Option (Surface S)
  find id [] = none
  find id (s ∷ rest) = if str_eq s.id id then some s else find id rest

  unfoldable pub erase : String → List (Surface S) → List (Surface S)
  erase id [] = []
  erase id (s ∷ rest) = let others = erase id rest in if str_eq s.id id then others else s ∷ others

  -- `context.setSurface(…)` and `root->detach(context)`, which reaches the whole subtree.
  unfoldable pub detach : Surface S → Store S → Store S
  detach s w = record w {
    current = (s.id, s.assets);
    detached = w.detached ++ map (λ id. (s.id, id)) (ids s.root);
  }

  abbrev pub of_owner : String → String → Option (Surface S) → Result (Surface S)
  of_owner surface owner none = failure (surface_unknown surface)
  of_owner surface owner (some s) =
      if str_eq s.owner owner then success s else failure (surface_foreign surface)

  unfoldable pub owned : String → String → Store S → Result (Surface S)
  owned surface owner w = of_owner surface owner (find surface w.surfaces)

  unfoldable pub unmount : String → String → Store S → Store S × Result (Unit {0})
  unmount surface owner w = elim (owned surface owner w) [
    | failure e ↦ (w, failure e)
    | success s ↦
        let w' = detach s w in (record w' { surfaces = erase surface w.surfaces }, success tt)
  ]

  -- The loop of `unmountOwner` over the surfaces that are left.
  unfoldable pub unmount_owner : String → List (Surface S) → Store S → Store S
  unmount_owner owner [] w = w
  unmount_owner owner (s ∷ rest) w =
      unmount_owner owner rest
        (if str_eq s.owner owner then detach s w else record w { surfaces = w.surfaces ++ s ∷ [] })

  unfoldable pub unmount_owner_all : String → Store S → Store S
  unmount_owner_all owner w = unmount_owner owner w.surfaces (record w { surfaces = [] })

  unfoldable pub detach_all : List (Surface S) → Store S → Store S
  detach_all [] w = w
  detach_all (s ∷ rest) w = detach_all rest (detach s w)

  unfoldable pub unmount_all : Store S → Store S
  unmount_all w = record (detach_all w.surfaces w) { surfaces = [] }

  -- The surface with a new root, in the place of the old one.
  unfoldable pub put_root : String → Component S → List (Surface S) → List (Surface S)
  put_root surface root [] = []
  put_root surface root (s ∷ rest) =
      (if str_eq s.id surface then record s { root = root } else s) ∷ put_root surface root rest

module _ {S J : Type 0} (k : Classes S J) where
  -- What follows a successful build: an older surface is detached and gives way.
  unfoldable pub place : String → String → String → Component S → List ℕ → Store S → Store S
  place surface owner assets root nodes w =
      let mounted : Surface S = record {
        id = surface;
        owner = owner;
        assets = assets;
        root = root;
        nodes = nodes;
      } in
      elim (find surface w.surfaces) [
        | none ↦ record w { surfaces = w.surfaces ++ mounted ∷ [] }
        | some s ↦ record (detach s w) { surfaces = erase surface w.surfaces ++ mounted ∷ [] }
      ]

  abbrev is_foreign : String → Option (Surface S) → Bool
  is_foreign owner none = false
  is_foreign owner (some s) = not (str_eq s.owner owner)

  unfoldable pub mount : String → String → String → J → Store S → Store S × Result (Unit {0})
  mount surface owner assets tree w =
      if str_eq surface "" || str_eq owner ""
      then (w, failure (surface_invalid surface))
      else if is_foreign owner (find surface w.surfaces)
      then (w, failure (surface_foreign surface))
      else elim (build k none (maximum_depth + 1) 0 tree nothing_staged) [
        | failure e ↦ (w, failure e)
        | success (root, staged) ↦ (place surface owner assets root staged.nodes w, success tt)
      ]

  -- A call through the pointer to a component of an owned surface.
  abbrev pub visited :
      String
      → ℕ
      → (ℕ → S → S × Result (Unit {0}))
      → Surface S
      → Store S
      → Store S × Result (Unit {0})
  visited surface id act s w = (
    record w { surfaces = put_root surface (visit_at id act s.root).0 w.surfaces },
    answered surface id (visit_at id act s.root).1,
  )

  unfoldable pub patch : String → String → ℕ → J → Store S → Store S × Result (Unit {0})
  patch surface owner id properties w = elim (owned surface owner w) [
    | failure e ↦ (w, failure e)
    | success s ↦
        if not (contains id s.nodes)
        then (w, failure (node_unknown surface id))
        else if not (k.is_object properties)
        then (w, failure (properties_invalid surface id))
        else visited surface id (patch_component k properties) s w
  ]

  abbrev pub commanded : String → J → ℕ → S → S × Result (Unit {0})
  commanded name arguments size s = k.command name arguments s

  unfoldable pub command : String → String → ℕ → String → J → Store S → Store S × Result (Unit {0})
  command surface owner id name arguments w = elim (owned surface owner w) [
    | failure e ↦ (w, failure e)
    | success s ↦
        if not (contains id s.nodes)
        then (w, failure (node_unknown surface id))
        else visited surface id (commanded name arguments) s
            (record w { current = (s.id, s.assets) })
  ]

  abbrev pub updated : ℕ → S → S × Result (Unit {0})
  updated size s = (k.update s, success tt)

  -- The inner loop of `update` over the map of a surface.
  unfoldable pub update_nodes : List ℕ → Component S → Component S
  update_nodes [] root = root
  update_nodes (id ∷ rest) root = update_nodes rest (visit_at id updated root).0

  abbrev pub update_surface : Surface S → Surface S
  update_surface s = record s { root = update_nodes s.nodes s.root }

  -- Its outer loop over the surfaces that are left.
  unfoldable pub update_all : List (Surface S) → Store S → Store S
  update_all [] w = w
  update_all (s ∷ rest) w =
      update_all rest
        (record w { surfaces = w.surfaces ++ update_surface s ∷ []; current = (s.id, s.assets) })

  unfoldable pub update : Store S → Store S
  update w = update_all w.surfaces (record w { surfaces = [] })
