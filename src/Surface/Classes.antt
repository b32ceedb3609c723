-- ===== src/Surface/Classes.antt =====
-- What the store asks of the kinds of components (src/ui/model/ComponentRegistry.cpp and the virtual
-- methods of src/ui/model/Component.cpp), and of the reader of JSON objects. `S` is the state of a
-- component, `J` a JSON value.
use Prim.Native.String.{String}
use workpane.Prelude.{ℕ, refl, ◌≡◌, Bool, List, Option}
use workpane.Result.{Error, Result, success, failure, ◌>>◌}

-- The fields of a node that `ObjectReader` has read.
pub record NodeSpec (J : Type 0) : Type 0 where
  pub identity : ℕ
  pub kind : String
  pub properties : J
  pub children : List J

pub record Classes (S J : Type 0) : Type 0 where
  -- `ObjectReader` over one node, with its refusals.
  pub read_node : J → Result (NodeSpec J)
  -- `spec.contains("kept")` and the identity of such a spec.
  pub is_kept : J → Bool
  pub kept_id : J → ℕ
  pub is_object : J → Bool
  -- `ComponentRegistry::create`.
  pub create : String → ℕ → Option S
  -- `Component::read`: what it leaves in the component also when it refuses.
  pub read : J → S → S × Result (Unit {0})
  pub applied : S → S
  -- The properties of the first state put back into the second, by `m_common` and `keep`.
  pub restore : S → S → S
  pub child_limit : S → ℕ
  -- `validateChildren` looks at the number of the children only.
  pub validate_children : S → ℕ → Result (Unit {0})
  -- `Component::command`, which may change the component also when it refuses.
  pub command : String → J → S → S × Result (Unit {0})
  -- `Component::update`.
  pub update : S → S

module _ {S J : Type 0} (k : Classes S J) where
  -- `Component::apply`.
  unfoldable pub apply : J → S → Result S
  apply properties s = let (s', proven) = k.read properties s in proven >> success (k.applied s')

  abbrev settle : Result (Unit {0}) → S → S → S × Result (Unit {0})
  settle (failure e) before after = (k.restore before after, failure e)
  settle (success u) before after = (k.applied after, success tt)

  -- `Component::patch` of a component with a number of children.
  unfoldable pub patch : J → ℕ → S → S × Result (Unit {0})
  patch properties size s =
      let (s', proven) = k.read properties s in settle (proven >> k.validate_children s' size) s s'

  patch-failure-settle :
      (r : Result (Unit {0})) (before after : S) (e : Error)
      → (settle r before after).1 ≡ failure e
      → (settle r before after).0 ≡ k.restore before after
  patch-failure-settle (failure e') before after e h = refl
  patch-failure-settle (success u) before after e h = cc

  -- What a refused patch puts back: what `keep` has kept, into what the read has left.
  abbrev pub put_back : J → S → S
  put_back properties s = k.restore s (k.read properties s).0

  -- A patch that is refused, by the reading or by the children, puts the properties back.
  pub patch-failure :
      (properties : J) (size : ℕ) (s : S) (e : Error)
      → (patch properties size s).1 ≡ failure e
      → (patch properties size s).0 ≡ put_back properties s
  unfolding patch
  patch-failure properties size s e h =
      patch-failure-settle
        ((k.read properties s).1 >> k.validate_children (k.read properties s).0 size) s
        (k.read properties s).0 e h
