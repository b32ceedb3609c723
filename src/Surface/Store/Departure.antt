-- ===== src/Surface/Store/Departure.antt =====
-- What leaves with an owner, and what a surface leaves behind when it goes.
use Prim.Native.String.{String}
use package.text.Mathlib.Text.{◌==◌ as str_eq}
use workpane.Prelude.{
  ℕ, List, [], ◌∷◌, ◌++◌, if◌then◌else◌, ◌≡◌, refl, sym, ◌∙◌, Bool-cases, inl, inr, map, append-nil,
  append_assoc,
}
use workpane.Surface.Tree.{ids}
use workpane.Surface.Store.{Surface, Store, detach, unmount_owner, unmount_owner_all}
use workpane.Surface.Store.{detach_all, unmount_all}

module _ {S : Type 0} where
  -- The surfaces of the other owners, and the components of the surfaces of one owner.
  unfoldable pub others : String → List (Surface S) → List (Surface S)
  others owner [] = []
  others owner (s ∷ rest) =
      let kept = others owner rest in if str_eq s.owner owner then kept else s ∷ kept

  unfoldable pub own_components : String → List (Surface S) → List (String × ℕ)
  own_components owner [] = []
  own_components owner (s ∷ rest) =
      let more = own_components owner rest in
      if str_eq s.owner owner then map (λ id. (s.id, id)) (ids s.root) ++ more else more

  unmount_owner-eq :
      (owner : String) (ss : List (Surface S)) (w : Store S)
      → ((unmount_owner owner ss w).surfaces ≡ w.surfaces ++ others owner ss)
        × ((unmount_owner owner ss w).detached ≡ w.detached ++ own_components owner ss)
  unfolding unmount_owner others own_components detach
  unmount_owner-eq owner [] w = (sym (append-nil w.surfaces), sym (append-nil w.detached))
  unmount_owner-eq owner (s ∷ rest) w = elim (Bool-cases (str_eq s.owner owner)) [
    | inl e ↦
        let (p, q) = unmount_owner-eq owner rest (detach s w) in
        rw (e, unmount_owner)
          (
            p,
            q
                ∙ append_assoc w.detached (map (λ id. (s.id, id)) (ids s.root))
                    (own_components owner rest),
          )
    | inr e ↦
        let (p, q) = unmount_owner-eq owner rest (record w { surfaces = w.surfaces ++ s ∷ [] }) in
        rw (e, unmount_owner) (p ∙ append_assoc w.surfaces (s ∷ []) (others owner rest), q)
  ]

  -- When an owner leaves, exactly the surfaces of the other owners stay, in their order, and every
  -- component of its own trees, and no other, is detached, once for each place in the trees.
  pub unmount_owner_all-eq :
      (owner : String) (w : Store S)
      → ((unmount_owner_all owner w).surfaces ≡ others owner w.surfaces)
        × ((unmount_owner_all owner w).detached ≡ w.detached ++ own_components owner w.surfaces)
  unfolding unmount_owner_all
  unmount_owner_all-eq owner w = unmount_owner-eq owner w.surfaces (record w { surfaces = [] })

  unfoldable pub all_components : List (Surface S) → List (String × ℕ)
  all_components [] = []
  all_components (s ∷ rest) = map (λ id. (s.id, id)) (ids s.root) ++ all_components rest

  detach_all-detached :
      (ss : List (Surface S)) (w : Store S)
      → (detach_all ss w).detached ≡ w.detached ++ all_components ss
  unfolding detach_all all_components detach
  detach_all-detached [] w = sym (append-nil w.detached)
  detach_all-detached (s ∷ rest) w =
      detach_all-detached rest (detach s w)
      ∙ append_assoc w.detached (map (λ id. (s.id, id)) (ids s.root)) (all_components rest)

  -- When everything is unmounted, no surface stays, and every component of every tree is detached, once
  -- for each place in the trees.
  pub unmount_all-eq :
      (w : Store S)
      → ((unmount_all w).surfaces ≡ [])
        × ((unmount_all w).detached ≡ w.detached ++ all_components w.surfaces)
  unfolding unmount_all
  unmount_all-eq w = (refl, detach_all-detached w.surfaces w)
