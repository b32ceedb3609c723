-- ===== src/Surface/Visit.antt =====
-- A call such as `component->second->patch(properties)` through the pointer that the map of a surface
-- holds (src/ui/model/SurfaceStore.cpp): it acts on the state of the component of the tree with that
-- identity, which is given with the number of its children.
use workpane.Prelude.{
  ◌||◌, sym, ◌∙◌, [], ℕ, ◌≡◌, Bool, true, false, List, ◌∷◌, ◌+◌, ◌++◌, Option, none, some, ◌==◌,
  if◌then◌else◌, Bool-cases, inl, inr, refl, ap, ap₂, max, arith,
}
use workpane.Result.{Error, Result, failure}
use workpane.Surface.Tree.{
  Component, Children, node, nil, absent, child, ids, ids_below, height, tallest, size, contains,
}

module _ {S : Type 0} where
  -- The same identities in the same places.
  abbrev pub SameShape : Component S → Component S → Type 0
  SameShape c d = (ids c ≡ ids d) × (height c ≡ height d)

  abbrev pub SameShapes : Children S → Children S → Type 0
  SameShapes cs ds = (ids_below cs ≡ ids_below ds) × (tallest cs ≡ tallest ds)

contains-append :
    (x : ℕ) (xs ys : List ℕ) → contains x (xs ++ ys) ≡ (contains x xs || contains x ys)
unfolding contains
contains-append x [] ys = refl
contains-append x (y ∷ xs) ys = ground (arith, contains-append x xs ys)

-- A tree with another state for the first of its components that has an identity.
module _ {S : Type 0} (id : ℕ) (change : S → S) where
  unfoldable mutual
    pub changed_at : Component S → Component S
    changed_at (node i s children) =
        if i == id then node i (change s) children else node i s (changed_below children)

    pub changed_below : Children S → Children S
    changed_below nil = nil
    changed_below (absent rest) = absent (changed_below rest)
    changed_below (child c rest) =
        let c' = changed_at c in
        let rest' = changed_below rest in
        if contains id (ids c) then child c' rest else child c rest'

  mutual
    unfolding changed_at ids contains

    unchanged_at : (c : Component S) → contains id (ids c) ≡ false → changed_at c ≡ c
    unchanged_at (node i s children) h = elim (Bool-cases (i == id)) [
      | inl e ↦ let h' = rw e at h in absurd (cc)
      | inr e ↦ rw e (ap (λ (x : Children S). node i s x) (unchanged_below children (rw e at h)))
    ]

    unchanged_below : (cs : Children S) → contains id (ids_below cs) ≡ false → changed_below cs ≡ cs
    unchanged_below nil h = refl
    unchanged_below (absent rest) h = ap (λ (x : Children S). absent x) (unchanged_below rest h)
    unchanged_below (child c rest) h =
        let h' = sym (contains-append id (ids c) (ids_below rest)) ∙ h in
        let e : contains id (ids c) ≡ false = ground (arith, h') in
        rw e (ap (λ (x : Children S). child c x) (unchanged_below rest (ground (arith, h'))))

  -- A tree without the identity stays the same.
  pub changed_at-absent : (c : Component S) → contains id (ids c) ≡ false → changed_at c ≡ c
  changed_at-absent c h = unchanged_at c h

module _ {S : Type 0} (id : ℕ) (act : ℕ → S → S × Result (Unit {0})) where
  -- `none` where no component has the identity.
  abbrev pub Visited : Type 0 → Type 0
  Visited T = T × Option (Result (Unit {0}))

  abbrev pub apply_here : ℕ → Children S → S × Result (Unit {0}) → Visited (Component S)
  apply_here i children (s, answer) = (node i s children, some answer)

  abbrev pub apply_below : ℕ → S → Visited (Children S) → Visited (Component S)
  apply_below i s (children, answer) = (node i s children, answer)

  abbrev pub go_on :
      Visited (Component S) → Children S → Visited (Children S) → Visited (Children S)
  go_on (c, some answer) rest after = (child c rest, some answer)
  go_on (c, none) rest (rest', answer) = (child c rest', answer)

  unfoldable mutual
    pub visit_at : Component S → Visited (Component S)
    visit_at (node i s children) =
        if i == id
        then apply_here i children (act (size children) s)
        else apply_below i s (visit_below children)

    pub visit_below : Children S → Visited (Children S)
    visit_below nil = (nil, none)
    visit_below (absent rest) = let (rest', answer) = visit_below rest in (absent rest', answer)
    visit_below (child c rest) = go_on (visit_at c) rest (visit_below rest)

  go_on-SameShapes :
      (p : Visited (Component S)) (c : Component S) (rest : Children S)
      (after : Visited (Children S))
      → SameShape p.0 c
      → SameShapes after.0 rest
      → SameShapes (go_on p rest after).0 (child c rest)
  unfolding ids height
  go_on-SameShapes (c', some answer) c rest after (e, f) (g, h) =
      (ap (λ (l : List ℕ). l ++ ids_below rest) e, ap (λ (n : ℕ). max n (tallest rest)) f)
  go_on-SameShapes (c', none) c rest (rest', answer) (e, f) (g, h) =
      (ap₂ (λ (l m : List ℕ). l ++ m) e g, ap₂ (λ (n m : ℕ). max n m) f h)

  mutual
    unfolding visit_at ids height

    visit_at-shape : (c : Component S) → SameShape (visit_at c).0 c
    visit_at-shape (node i s children) = elim (Bool-cases (i == id)) [
      | inl e ↦ rw e (refl, refl)
      | inr e ↦
          let (f, g) = visit_below-shape children in
          rw e (ap (λ (l : List ℕ). i ∷ l) f, ap (λ (n : ℕ). n + 1) g)
    ]

    visit_below-shape : (cs : Children S) → SameShapes (visit_below cs).0 cs
    visit_below-shape nil = (refl, refl)
    visit_below-shape (absent rest) = visit_below-shape rest
    visit_below-shape (child c rest) =
        go_on-SameShapes (visit_at c) c rest (visit_below rest) (visit_at-shape c)
          (visit_below-shape rest)

  go_on-none :
      (p : Visited (Component S)) (c : Component S) (rest : Children S)
      (after : Visited (Children S))
      → (p.1 ≡ none → p.0 ≡ c)
      → (after.1 ≡ none → after.0 ≡ rest)
      → (go_on p rest after).1 ≡ none
      → (go_on p rest after).0 ≡ child c rest
  go_on-none (c', some answer) c rest after f g h = absurd (cc)
  go_on-none (c', none) c rest (rest', answer) f g h =
      ap₂ (λ (x : Component S) (y : Children S). child x y) (f refl) (g h)

  -- A visit changes neither the identities of a tree nor its places.
  pub visit_at-SameShape : (c : Component S) → SameShape (visit_at c).0 c
  visit_at-SameShape c = visit_at-shape c

  mutual
    unfolding visit_at

    pub visit_at-none : (c : Component S) → (visit_at c).1 ≡ none → (visit_at c).0 ≡ c
    visit_at-none (node i s children) h = elim (Bool-cases (i == id)) [
      | inl e ↦ let h' = rw e at h in absurd (cc)
      | inr e ↦ rw e (ap (λ (x : Children S). node i s x) (visit_below-none children (rw e at h)))
    ]

    visit_below-none : (cs : Children S) → (visit_below cs).1 ≡ none → (visit_below cs).0 ≡ cs
    visit_below-none nil h = refl
    visit_below-none (absent rest) h = ap (λ (x : Children S). absent x) (visit_below-none rest h)
    visit_below-none (child c rest) h =
        go_on-none (visit_at c) c rest (visit_below rest) (visit_at-none c) (visit_below-none rest)
          h

  abbrev pub answers : Option (Result (Unit {0})) → Bool
  answers none = false
  answers (some r) = true

  go_on-answers :
      (p : Visited (Component S)) (rest : Children S) (after : Visited (Children S))
      → answers (go_on p rest after).1 ≡ (answers p.1 || answers after.1)
  go_on-answers (c, some r) rest after = refl
  go_on-answers (c, none) rest (rest', a) = refl

  mutual
    unfolding visit_at ids contains

    answers-contains : (c : Component S) → answers (visit_at c).1 ≡ contains id (ids c)
    answers-contains (node i s children) = elim (Bool-cases (i == id)) [
      | inl e ↦ rw e refl
      | inr e ↦ rw e (answers-contains_below children)
    ]

    answers-contains_below :
        (cs : Children S) → answers (visit_below cs).1 ≡ contains id (ids_below cs)
    answers-contains_below nil = refl
    answers-contains_below (absent rest) = answers-contains_below rest
    answers-contains_below (child c rest) =
        go_on-answers (visit_at c) rest (visit_below rest)
        ∙ ap₂ ◌||◌ (answers-contains c) (answers-contains_below rest)
        ∙ sym (contains-append id (ids c) (ids_below rest))

  -- A visit reaches a component exactly when the tree has the identity.
  pub visit_at-answers : (c : Component S) → answers (visit_at c).1 ≡ contains id (ids c)
  visit_at-answers c = answers-contains c

  module _ (change : S → S) (err : Error)
      (law : (n : ℕ) (s : S) → (act n s).1 ≡ failure err → (act n s).0 ≡ change s) where
    apply_here-failure :
        (i : ℕ) (children : Children S) (s : S) (p : S × Result (Unit {0}))
        → (p.1 ≡ failure err → p.0 ≡ change s)
        → (apply_here i children p).1 ≡ some (failure err)
        → (apply_here i children p).0 ≡ node i (change s) children
    apply_here-failure i children s (s', answer) keep h =
        ap (λ (x : S). node i x children) (keep (ground arith))

    go_on-failure :
        (p : Visited (Component S)) (c c' : Component S) (rest rest' : Children S)
        (after : Visited (Children S)) (reached : Bool)
        → answers p.1 ≡ reached
        → (p.1 ≡ some (failure err) → p.0 ≡ c')
        → (p.1 ≡ none → p.0 ≡ c)
        → (after.1 ≡ some (failure err) → after.0 ≡ rest')
        → (go_on p rest after).1 ≡ some (failure err)
        → (go_on p rest after).0 ≡ (if reached then child c' rest else child c rest')
    go_on-failure (x, some answer) c c' rest rest' after true e f g r h =
        ap (λ (y : Component S). child y rest) (f h)
    go_on-failure (x, some answer) c c' rest rest' after false e f g r h = absurd (cc)
    go_on-failure (x, none) c c' rest rest' (y, answer) true e f g r h = absurd (cc)
    go_on-failure (x, none) c c' rest rest' (y, answer) false e f g r h =
        ap₂ (λ (z : Component S) (l : Children S). child z l) (g refl) (r h)

    mutual
      unfolding visit_at changed_at

      refused_at :
          (c : Component S)
          → (visit_at c).1 ≡ some (failure err)
          → (visit_at c).0 ≡ changed_at id change c
      refused_at (node i s children) h = elim (Bool-cases (i == id)) [
        | inl e ↦ rw e (
            apply_here-failure i children s (act (size children) s) (law (size children) s)
              (rw e at h))
        | inr e ↦ rw e (ap (λ (x : Children S). node i s x) (refused_below children (rw e at h)))
      ]

      refused_below :
          (cs : Children S)
          → (visit_below cs).1 ≡ some (failure err)
          → (visit_below cs).0 ≡ changed_below id change cs
      refused_below nil h = refl
      refused_below (absent rest) h = ap (λ (x : Children S). absent x) (refused_below rest h)
      refused_below (child c rest) h =
          go_on-failure (visit_at c) c (changed_at id change c) rest (changed_below id change rest)
            (visit_below rest) (contains id (ids c)) (answers-contains c) (refused_at c)
            (visit_at-none c) (refused_below rest) h

    -- A visit that fails, where failures leave a component changed in one way, leaves the tree with that
    -- change of the component that it reached.
    pub visit_at-failure :
        (c : Component S)
        → (visit_at c).1 ≡ some (failure err)
        → (visit_at c).0 ≡ changed_at id change c
    visit_at-failure c h = refused_at c h
