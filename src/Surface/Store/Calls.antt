-- ===== src/Surface/Store/Calls.antt =====
-- Runs of calls of `SurfaceStore` (src/ui/model/SurfaceStore.cpp) by several owners.
use Prim.Native.String.{String}
use package.text.Mathlib.Text.{◌==◌ as str_eq}
use workpane.Prelude.{ℕ, Bool, true, false, List, [], ◌∷◌}
use workpane.Result.{Result, success}
use workpane.Surface.Classes.{Classes}
use workpane.Surface.Store.{Store, mount, patch, unmount, unmount_owner_all, command, update}

pub data Call (J : Type 0) : Type 0 where
  mounting : (surface owner assets : String) → J → Call J
  patching : (surface owner : String) → ℕ → J → Call J
  unmounting : (surface owner : String) → Call J
  leaving : (owner : String) → Call J
  commanding : (surface owner : String) → ℕ → (name : String) → J → Call J
  updating : Call J

module _ {S J : Type 0} (k : Classes S J) where
  -- Whether a call is made on behalf of an owner, or on every surface.
  abbrev pub concerns : String → Call J → Bool
  concerns other (mounting surface owner assets tree) = str_eq other owner
  concerns other (patching surface owner id properties) = str_eq other owner
  concerns other (unmounting surface owner) = str_eq other owner
  concerns other (leaving owner) = str_eq other owner
  concerns other (commanding surface owner id name arguments) = str_eq other owner
  concerns other updating = true

  -- Whether a call only asks a component for something, whose refusal is the component's own.
  abbrev pub is_command : Call J → Bool
  is_command (mounting surface owner assets tree) = false
  is_command (patching surface owner id properties) = false
  is_command (unmounting surface owner) = false
  is_command (leaving owner) = false
  is_command (commanding surface owner id name arguments) = true
  is_command updating = false

  abbrev pub perform : Call J → Store S → Store S
  perform (mounting surface owner assets tree) w = (mount k surface owner assets tree w).0
  perform (patching surface owner id properties) w = (patch k surface owner id properties w).0
  perform (unmounting surface owner) w = (unmount surface owner w).0
  perform (leaving owner) w = unmount_owner_all owner w
  perform (commanding surface owner id name arguments) w =
      (command k surface owner id name arguments w).0
  perform updating w = update k w

  abbrev pub answer : Call J → Store S → Result (Unit {0})
  answer (mounting surface owner assets tree) w = (mount k surface owner assets tree w).1
  answer (patching surface owner id properties) w = (patch k surface owner id properties w).1
  answer (unmounting surface owner) w = (unmount surface owner w).1
  answer (leaving owner) w = success tt
  answer (commanding surface owner id name arguments) w =
      (command k surface owner id name arguments w).1
  answer updating w = success tt

  unfoldable pub perform_all : List (Call J) → Store S → Store S
  perform_all [] w = w
  perform_all (c ∷ calls) w = perform_all calls (perform c w)
