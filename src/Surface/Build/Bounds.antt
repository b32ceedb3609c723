-- ===== src/Surface/Build/Bounds.antt =====
-- What a tree that was built is like.
use workpane.Prelude.{
  ℕ, ◌+◌, ◌≤◌, ◌<◌, ◌≡◌, false, ◌||◌, List, [], ◌∷◌, ◌++◌, Option, length, length-append, All,
  All-append, arith, refl, ap, ◌∙◌, sym, append_assoc, append-nil, ◌==◌,
}
use workpane.Surface.Tree.{contains, Distinct}
use workpane.Surface.Build.{Staged, taken, maximum_nodes}

pub contains-append_single :
    (x y : ℕ) (xs : List ℕ) → contains x (xs ++ y ∷ []) ≡ (contains x xs || y == x)
unfolding contains
contains-append_single x y [] = ground arith
contains-append_single x y (z ∷ xs) = ground (arith, contains-append_single x y xs)

pub Distinct-append_single :
    (xs : List ℕ) (y : ℕ) → Distinct xs → contains y xs ≡ false → Distinct (xs ++ y ∷ [])
unfolding contains
Distinct-append_single [] y d h = (refl, tt)
Distinct-append_single (x ∷ xs) y d h =
    (ground (arith, contains-append_single x y xs), Distinct-append_single xs y d.1 (ground arith))

-- What a step of building does to what is staged, over the identities that it adds.
pub record Adds (existing : Option (List ℕ)) (before after : Staged) (added : List ℕ) : Type 0 where
  pub nodes : after.nodes ≡ before.nodes ++ added
  pub distinct : Distinct before.nodes → Distinct after.nodes
  pub apart : All (λ id. taken existing id ≡ false) added
  pub staying : after.staying ≡ before.staying
  pub count :
      before.staying + length before.nodes ≤ maximum_nodes
      → after.staying + length after.nodes ≤ maximum_nodes

module _ (existing : Option (List ℕ)) where
  pub Adds-refl : (s : Staged) → Adds existing s s []
  Adds-refl s = record {
    nodes = sym (append-nil s.nodes);
    distinct = λ d. d;
    apart = tt;
    staying = refl;
    count = λ h. h;
  }

  pub Adds-trans :
      (r s t : Staged) (xs ys : List ℕ)
      → Adds existing r s xs
      → Adds existing s t ys
      → Adds existing r t (xs ++ ys)
  Adds-trans r s t xs ys a b = record {
    nodes = b.nodes ∙ ap (λ (l : List ℕ). l ++ ys) a.nodes ∙ append_assoc r.nodes xs ys;
    distinct = λ d. b.distinct (a.distinct d);
    apart = All-append (λ id. taken existing id ≡ false) xs ys a.apart b.apart;
    staying = b.staying ∙ a.staying;
    count = λ h. b.count (a.count h);
  }

  pub Adds-single :
      (s : Staged) (id : ℕ)
      → s.staying + length s.nodes < maximum_nodes
      → contains id s.nodes ≡ false
      → taken existing id ≡ false
      → Adds existing s (record s { nodes = s.nodes ++ id ∷ [] }) (id ∷ [])
  Adds-single s id room fresh apart = record {
    nodes = refl;
    distinct = λ d. Distinct-append_single s.nodes id d fresh;
    apart = (apart, tt);
    staying = refl;
    count = λ h. omega (arith, length-append {0} s.nodes (id ∷ []));
  }
