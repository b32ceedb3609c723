-- ===== src/Scripting/Registry/Apart.antt =====
-- Lists whose members are pairwise different: places, and the identifiers of plugins.
use workpane.Prelude.{◌≢◌, sym, List, [], ◌∷◌, ◌++◌}

module _ {P : Type 0} where
  abbrev pub IsMissing : P → List P → Type 0
  IsMissing p [] = Unit
  IsMissing p (x ∷ xs) = (x ≢ p) × IsMissing p xs

  abbrev pub AreApart : List P → Type 0
  AreApart [] = Unit
  AreApart (x ∷ xs) = IsMissing x xs × AreApart xs

  -- A list with some members of another left out.
  pub data IsWithin : List P → List P → Type 0 where
    finished : IsWithin [] []
    left_out : {x : P} {xs ys : List P} → IsWithin xs ys → IsWithin xs (x ∷ ys)
    kept : {x : P} {xs ys : List P} → IsWithin xs ys → IsWithin (x ∷ xs) (x ∷ ys)

  pub IsWithin-append :
      (zs : List P) {xs ys : List P} → IsWithin xs ys → IsWithin (zs ++ xs) (zs ++ ys)
  IsWithin-append [] w = w
  IsWithin-append (z ∷ zs) w = kept (IsWithin-append zs w)

  pub IsWithin-skip : (zs : List P) {xs ys : List P} → IsWithin xs ys → IsWithin xs (zs ++ ys)
  IsWithin-skip [] w = w
  IsWithin-skip (z ∷ zs) w = left_out (IsWithin-skip zs w)

  IsMissing-IsWithin : (p : P) {xs ys : List P} → IsWithin xs ys → IsMissing p ys → IsMissing p xs
  IsMissing-IsWithin p finished m = tt
  IsMissing-IsWithin p (left_out w) (n, m) = IsMissing-IsWithin p w m
  IsMissing-IsWithin p (kept w) (n, m) = (n, IsMissing-IsWithin p w m)

  pub AreApart-IsWithin : {xs ys : List P} → IsWithin xs ys → AreApart ys → AreApart xs
  AreApart-IsWithin finished a = tt
  AreApart-IsWithin (left_out w) (m, a) = AreApart-IsWithin w a
  AreApart-IsWithin (kept {x} w) (m, a) = (IsMissing-IsWithin x w m, AreApart-IsWithin w a)

  IsMissing-append : (p q : P) (xs : List P) → IsMissing p xs → q ≢ p → IsMissing p (xs ++ q ∷ [])
  IsMissing-append p q [] m n = (n, tt)
  IsMissing-append p q (x ∷ xs) (k, m) n = (k, IsMissing-append p q xs m n)

  pub AreApart-append :
      (p : P) (xs : List P) → IsMissing p xs → AreApart xs → AreApart (xs ++ p ∷ [])
  AreApart-append p [] m a = (tt, tt)
  AreApart-append p (x ∷ xs) (n, m) (k, a) =
      (IsMissing-append x p xs k (λ e. n (sym e)), AreApart-append p xs m a)

  -- The last member of a list whose members are apart is missing before it.
  IsMissing-last : (p q : P) (xs ys : List P) → IsMissing p (xs ++ q ∷ ys) → q ≢ p
  IsMissing-last p q [] ys (n, m) = n
  IsMissing-last p q (x ∷ xs) ys (n, m) = IsMissing-last p q xs ys m

  pub AreApart-split : (p : P) (xs ys : List P) → AreApart (xs ++ p ∷ ys) → IsMissing p xs
  AreApart-split p [] ys a = tt
  AreApart-split p (x ∷ xs) ys (m, a) =
      ((λ e. IsMissing-last x p xs ys m (sym e)), AreApart-split p xs ys a)
