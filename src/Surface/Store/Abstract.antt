-- ===== src/Surface/Store/Abstract.antt =====
-- What the store of src/ui/model/SurfaceStore.cpp promises: a map from identities to surfaces, and what each
-- call makes of it and answers.
use Prim.Native.String.{String}
use package.text.Mathlib.Text.{◌==◌ as str_eq}
use workpane.Prelude.{ℕ, ◌+◌, not, ◌||◌, List, [], ◌∷◌, Option, none, some, if◌then◌else◌}
use workpane.Result.{Result, success, failure}
use workpane.Surface.Tree.{Component, contains}
use workpane.Surface.Classes.{Classes, patch as patch_component}
use workpane.Surface.Visit.{visit_at}
use workpane.Surface.Build.{Staged, build, maximum_depth, nothing_staged}
use workpane.Surface.Store.{
  Surface, Store, find, of_owner, surface_invalid, surface_foreign, node_unknown,
  properties_invalid, answered, is_foreign, commanded, update_surface,
}
use workpane.Surface.Store.Calls.{
  Call, mounting, patching, unmounting, leaving, commanding, updating, perform, answer,
}

abbrev pub View : Type 0 → Type 0
View S = String → Option (Surface S)

module _ {S : Type 0} where
  abbrev pub view : Store S → View S
  view w id = find id w.surfaces

  abbrev pub set : String → Option (Surface S) → View S → View S
  set surface o f id = if str_eq surface id then o else f id

  abbrev pub unless_owned : String → Option (Surface S) → Option (Surface S)
  unless_owned owner none = none
  unless_owned owner (some s) = if str_eq s.owner owner then none else some s

  abbrev pub each : (Surface S → Surface S) → Option (Surface S) → Option (Surface S)
  each f none = none
  each f (some s) = some (f s)

module _ {S J : Type 0} (k : Classes S J) where
  abbrev Outcome : Type 0
  Outcome = View S × Result (Unit {0})

  abbrev pub mount_built :
      String → String → String → View S → Result (Component S × Staged) → Outcome
  mount_built surface owner assets f (failure e) = (f, failure e)
  mount_built surface owner assets f (success (root, staged)) =
      let mounted : Surface S = record {
        id = surface;
        owner = owner;
        assets = assets;
        root = root;
        nodes = staged.nodes;
      } in
      (set surface (some mounted) f, success tt)

  abbrev pub mount_view : String → String → String → J → View S → Outcome
  mount_view surface owner assets tree f =
      if str_eq surface "" || str_eq owner ""
      then (f, failure (surface_invalid surface))
      else if is_foreign k owner (f surface)
      then (f, failure (surface_foreign surface))
      else mount_built surface owner assets f
          (build k none (maximum_depth + 1) 0 tree nothing_staged)

  abbrev pub visit_view :
      String → ℕ → (ℕ → S → S × Result (Unit {0})) → View S → Surface S → Outcome
  visit_view surface id act f s = (
    set surface (some (record s { root = (visit_at id act s.root).0 })) f,
    answered surface id (visit_at id act s.root).1,
  )

  abbrev pub patch_owned : String → ℕ → J → View S → Result (Surface S) → Outcome
  patch_owned surface id properties f (failure e) = (f, failure e)
  patch_owned surface id properties f (success s) =
      if not (contains id s.nodes)
      then (f, failure (node_unknown surface id))
      else if not (k.is_object properties)
      then (f, failure (properties_invalid surface id))
      else visit_view surface id (patch_component k properties) f s

  abbrev pub command_owned : String → ℕ → String → J → View S → Result (Surface S) → Outcome
  command_owned surface id name arguments f (failure e) = (f, failure e)
  command_owned surface id name arguments f (success s) =
      if not (contains id s.nodes)
      then (f, failure (node_unknown surface id))
      else visit_view surface id (commanded k name arguments) f s

  abbrev pub unmount_owned : String → View S → Result (Surface S) → Outcome
  unmount_owned surface f (failure e) = (f, failure e)
  unmount_owned surface f (success s) = (set surface none f, success tt)

  -- What a call makes of the map, and its answer.
  unfoldable pub specified : Call J → View S → View S × Result (Unit {0})
  specified (mounting surface owner assets tree) f = mount_view surface owner assets tree f
  specified (patching surface owner id properties) f =
      patch_owned surface id properties f (of_owner surface owner (f surface))
  specified (unmounting surface owner) f =
      unmount_owned surface f (of_owner surface owner (f surface))
  specified (leaving owner) f = (λ id. unless_owned owner (f id), success tt)
  specified (commanding surface owner id name arguments) f =
      command_owned surface id name arguments f (of_owner surface owner (f surface))
  specified updating f = (λ id. each (update_surface k) (f id), success tt)

  -- A run of calls, on the map and on the store, with the answers in turn.
  abbrev pub push :
      Result (Unit {0}) → View S × List (Result (Unit {0})) → View S × List (Result (Unit {0}))
  push a (f, answers) = (f, a ∷ answers)

  unfoldable pub replay : List (Call J) → View S → View S × List (Result (Unit {0}))
  replay [] f = (f, [])
  replay (c ∷ calls) f = push (specified c f).1 (replay calls (specified c f).0)

  unfoldable pub answer_all : List (Call J) → Store S → List (Result (Unit {0}))
  answer_all [] w = []
  answer_all (c ∷ calls) w = answer k c w ∷ answer_all calls (perform k c w)
