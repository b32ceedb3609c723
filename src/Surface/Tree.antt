-- ===== src/Surface/Tree.antt =====
-- A tree of components (`m_children` of src/ui/model/Component.h). A child is absent while a node
-- that is kept has still to move into its place.
use workpane.Prelude.{ℕ, suc, ◌+◌, ◌≡◌, Bool, false, ◌||◌, List, [], ◌∷◌, ◌++◌, max, ◌==◌}

mutual
  -- `node id state children`, where the state holds the properties of the component.
  pub data Component (S : Type 0) : Type 0 where
    node : ℕ → S → Children S → Component S

  pub data Children (S : Type 0) : Type 0 where
    nil : Children S
    absent : Children S → Children S
    child : Component S → Children S → Children S

module _ {S : Type 0} where
  unfoldable mutual
    -- The identities of a subtree, as `collect` and `forget` walk it.
    pub ids : Component S → List ℕ
    ids (node id state children) = id ∷ ids_below children

    pub ids_below : Children S → List ℕ
    ids_below nil = []
    ids_below (absent rest) = ids_below rest
    ids_below (child c rest) = ids c ++ ids_below rest

  unfoldable mutual
    -- The levels that a subtree spans, one for a node without children.
    pub height : Component S → ℕ
    height (node id state children) = tallest children + 1

    pub tallest : Children S → ℕ
    tallest nil = 0
    tallest (absent rest) = tallest rest
    tallest (child c rest) = max (height c) (tallest rest)

  unfoldable pub size : Children S → ℕ
  size nil = 0
  size (absent rest) = suc (size rest)
  size (child c rest) = suc (size rest)

-- `nodes.contains(id)`.
unfoldable pub contains : ℕ → List ℕ → Bool
contains id [] = false
contains id (x ∷ xs) = x == id || contains id xs

-- No identity stands twice.
abbrev pub Distinct : List ℕ → Type 0
Distinct [] = Unit
Distinct (x ∷ xs) = (contains x xs ≡ false) × Distinct xs
