-- ===== src/Surface/Store/Examples.antt =====
-- Two owners and the surfaces that they mount, patch and leave behind.
use workpane.Prelude.{none, ℕ, ◌≡◌, refl, List, [], ◌∷◌, ◌++◌, some}
use workpane.Result.{success, failure}
use workpane.Surface.Visit.{visit_at}
use workpane.Surface.Tree.{contains}
use workpane.Surface.Classes
use workpane.Surface.Classes.{apply}
use workpane.Surface.Build.{build, build_children, prove}
use workpane.Surface.Build.Examples.{Sketch, leaf, numbers, sketch, tree, refusal}
use workpane.Surface.Store.{Surface, Store, initial, find, owned, patch, mount, place}
use workpane.Surface.Store.Calls.{
  Call, mounting, patching, unmounting, leaving, commanding, updating, answer, perform, perform_all,
}
use workpane.Surface.Store.Isolation.{perform_all-keeps}
use workpane.Surface.Store.Soundness.{AreSound, perform_all-initial-AreSound}
use workpane.Surface.Store.Refusals.{Leaves, perform-failure}
use workpane.Surface.Store.Abstract.{view, replay, answer_all}
use workpane.Surface.Store.Refinement.{perform_all-replay}

abbrev mine : Surface ℕ
mine = record { id = "a"; owner = "me"; assets = "dir"; root = tree; nodes = 1 ∷ 2 ∷ 3 ∷ [] }

abbrev mounts : List (Call Sketch)
mounts = mounting "a" "me" "dir" sketch ∷ mounting "b" "you" "dir" (leaf 4 8) ∷ []

abbrev busy : List (Call Sketch)
busy = mounting "a" "me" "dir" sketch ∷ updating ∷ commanding "a" "me" 2 "focus" (leaf 0 1) ∷ []

abbrev mounted : Store ℕ
mounted = perform_all numbers mounts initial

abbrev only_mine : Store ℕ
only_mine = perform_all numbers (mounting "a" "me" "dir" sketch ∷ []) initial

abbrev foreign : List (Call Sketch)
foreign =
    mounting "a" "you" "dir" (leaf 4 8)
    ∷ patching "a" "you" 2 (leaf 0 1)
    ∷ commanding "a" "you" 2 "focus" (leaf 0 1)
    ∷ unmounting "a" "you"
    ∷ leaving "you"
    ∷ []

find-mine : find "a" mounted.surfaces ≡ some mine
unfolding perform_all find mount build contains apply build_children prove place
find-mine = refl

perform_all-keeps_example : find "a" (perform_all numbers foreign mounted).surfaces ≡ some mine
perform_all-keeps_example =
    perform_all-keeps numbers foreign mounted "a" mine find-mine
      (refl, (refl, (refl, (refl, (refl, tt)))))

perform_all-initial-AreSound_example : AreSound (perform_all numbers busy initial)
perform_all-initial-AreSound_example = perform_all-initial-AreSound numbers busy

patch_refused : answer numbers (patching "a" "me" 2 (leaf 0 10)) mounted ≡ failure refusal
unfolding perform_all patch owned find mount build contains apply build_children prove place
    visit_at Classes.patch
patch_refused = refl

perform-failure_example :
    Leaves numbers
      (patching "a" "me" 2 (leaf 0 10))
      mounted
      (perform numbers (patching "a" "me" 2 (leaf 0 10)) mounted)
perform-failure_example =
    perform-failure numbers (patching "a" "me" 2 (leaf 0 10)) mounted refusal refl patch_refused

find-fresh : find "b" only_mine.surfaces ≡ none
unfolding perform_all find mount build contains apply build_children prove place
find-fresh = refl

mount_accepted : (mount numbers "b" "you" "dir" (leaf 4 8) only_mine).1 ≡ success tt
unfolding perform_all find mount build contains apply build_children prove place
mount_accepted = refl

abbrev everything : List (Call Sketch)
everything = mounts ++ commanding "b" "you" 4 "focus" (leaf 0 1) ∷ updating ∷ foreign

perform_all-replay_example :
    (view (perform_all numbers everything initial), answer_all numbers everything initial)
    ≡ replay numbers everything (λ id. none)
perform_all-replay_example = perform_all-replay numbers everything
