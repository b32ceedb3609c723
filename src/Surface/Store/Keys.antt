-- ===== src/Surface/Store/Keys.antt =====
-- The map of surfaces has one surface for each identity.
use Prim.Native.String.{String}
use package.text.Mathlib.Text.{◌==◌ as str_eq}
use workpane.Prelude.{
  false, List, [], ◌∷◌, ◌++◌, none, some, ◌≡◌, refl, sym, ap, subst, Bool-cases, inl, inr, All,
}
use workpane.Surface.Tree.{Component}
use workpane.Surface.Store.{Surface, find, erase, put_root}
use workpane.Surface.Store.Lookup.{str_eq-false_symm}
use package.text.Mathlib.TextEquality.{eq_iff}

module _ {S : Type 0} where
  abbrev pub Keyed : List (Surface S) → Type 0
  Keyed [] = Unit
  Keyed (s ∷ rest) = (find s.id rest ≡ none) × Keyed rest

  -- A key that is not there differs from the first one.
  pub find-head :
      (id : String) (s : Surface S) (ss : List (Surface S))
      → find id (s ∷ ss) ≡ none
      → (str_eq s.id id ≡ false) × (find id ss ≡ none)
  unfolding find
  find-head id s ss h = elim (Bool-cases (str_eq s.id id)) [
    | inl e ↦ let h' = rw e at h in absurd (cc)
    | inr e ↦ (e, rw e at h)
  ]

  find-erase-none :
      (id gone : String) (ss : List (Surface S))
      → find id ss ≡ none
      → find id (erase gone ss) ≡ none
  unfolding find erase
  find-erase-none id gone [] h = refl
  find-erase-none id gone (s ∷ rest) h =
      let (e, h') = find-head id s rest h in
      elim (Bool-cases (str_eq s.id gone)) [
        | inl f ↦ rw f (find-erase-none id gone rest h')
        | inr f ↦ rw (f, e) (find-erase-none id gone rest h')
      ]

  pub erase-Keyed : (gone : String) (ss : List (Surface S)) → Keyed ss → Keyed (erase gone ss)
  unfolding erase
  erase-Keyed gone [] h = tt
  erase-Keyed gone (s ∷ rest) h = elim (Bool-cases (str_eq s.id gone)) [
    | inl e ↦ rw e (erase-Keyed gone rest h.1)
    | inr e ↦ rw e (find-erase-none s.id gone rest h.0, erase-Keyed gone rest h.1)
  ]

  pub find-erase_same : (id : String) (ss : List (Surface S)) → find id (erase id ss) ≡ none
  unfolding find erase
  find-erase_same id [] = refl
  find-erase_same id (s ∷ rest) = elim (Bool-cases (str_eq s.id id)) [
    | inl e ↦ rw e (find-erase_same id rest)
    | inr e ↦ rw (e, e) (find-erase_same id rest)
  ]

  find-append_none :
      (id : String) (ss : List (Surface S)) (s : Surface S)
      → find id ss ≡ none
      → str_eq s.id id ≡ false
      → find id (ss ++ s ∷ []) ≡ none
  unfolding find
  find-append_none id [] s h e = rw e refl
  find-append_none id (x ∷ ss) s h e = elim (Bool-cases (str_eq x.id id)) [
    | inl f ↦ let h' = rw f at h in absurd (cc)
    | inr f ↦ rw f (find-append_none id ss s (rw f at h) e)
  ]

  pub append-Keyed :
      (ss : List (Surface S)) (s : Surface S)
      → Keyed ss
      → find s.id ss ≡ none
      → Keyed (ss ++ s ∷ [])
  unfolding find
  append-Keyed [] s k h = (refl, tt)
  append-Keyed (x ∷ ss) s k h =
      let (e, h') = find-head s.id x ss h in
      (find-append_none x.id ss s k.0 (str_eq-false_symm x.id s.id e), append-Keyed ss s k.1 h')

  find-put_root-none :
      (id surface : String) (root : Component S) (ss : List (Surface S))
      → find id ss ≡ none
      → find id (put_root surface root ss) ≡ none
  unfolding find put_root
  find-put_root-none id surface root [] h = refl
  find-put_root-none id surface root (s ∷ rest) h =
      let (e, h') = find-head id s rest h in
      elim (Bool-cases (str_eq s.id surface)) [
        | inl f ↦ rw (f, e) (find-put_root-none id surface root rest h')
        | inr f ↦ rw (f, e) (find-put_root-none id surface root rest h')
      ]

  pub put_root-Keyed :
      (surface : String) (root : Component S) (ss : List (Surface S))
      → Keyed ss
      → Keyed (put_root surface root ss)
  unfolding put_root
  put_root-Keyed surface root [] h = tt
  put_root-Keyed surface root (s ∷ rest) h = elim (Bool-cases (str_eq s.id surface)) [
    | inl e ↦
        rw e (find-put_root-none s.id surface root rest h.0, put_root-Keyed surface root rest h.1)
    | inr e ↦
        rw e (find-put_root-none s.id surface root rest h.0, put_root-Keyed surface root rest h.1)
  ]

  pub put_root-none :
      (id : String) (root : Component S) (ss : List (Surface S))
      → find id ss ≡ none
      → put_root id root ss ≡ ss
  unfolding put_root
  put_root-none id root [] h = refl
  put_root-none id root (s ∷ rest) h =
      let (e, h') = find-head id s rest h in
      rw e (ap (λ (l : List (Surface S)). s ∷ l) (put_root-none id root rest h'))

  -- A new root comes into one surface, the one that is found.
  pub put_root-All :
      (P : Surface S → Type 0) (id : String) (root : Component S) (t : Surface S)
      → (P t → P (record t { root = root }))
      → (ss : List (Surface S)) → Keyed ss
      → find id ss ≡ some t
      → All P ss
      → All P (put_root id root ss)
  unfolding put_root find
  put_root-All P id root t f [] k e h = tt
  put_root-All P id root t f (s ∷ rest) k e h = elim (Bool-cases (str_eq s.id id)) [
    | inl g ↦
        let e' = rw g at e in
        let p : s ≡ t = cc in
        let q : find id rest ≡ none = subst (λ x. find x rest ≡ none) ((eq_iff s.id id).0 g) k.0 in
        rw g (
          subst (λ x. P (record x { root = root })) (sym p) (f (subst P p h.0)),
          subst (λ (l : List (Surface S)). All P l) (sym (put_root-none id root rest q)) h.1,
        )
    | inr g ↦ rw g (h.0, put_root-All P id root t f rest k.1 (rw g at e) h.1)
  ]

  find-append_split :
      (id : String) (xs ys : List (Surface S))
      → find id (xs ++ ys) ≡ none
      → (find id xs ≡ none) × (find id ys ≡ none)
  unfolding find
  find-append_split id [] ys h = (refl, h)
  find-append_split id (x ∷ xs) ys h =
      let (e, h') = find-head id x (xs ++ ys) h in
      let (a, b) = find-append_split id xs ys h' in (rw e a, b)

  pub find-append_join :
      (id : String) (xs ys : List (Surface S))
      → find id xs ≡ none
      → find id ys ≡ none
      → find id (xs ++ ys) ≡ none
  unfolding find
  find-append_join id [] ys h g = g
  find-append_join id (x ∷ xs) ys h g =
      let (e, h') = find-head id x xs h in rw e (find-append_join id xs ys h' g)

  find-head_join :
      (id : String) (s : Surface S) (ss : List (Surface S))
      → str_eq s.id id ≡ false
      → find id ss ≡ none
      → find id (s ∷ ss) ≡ none
  unfolding find
  find-head_join id s ss e h = rw e h

  pub Keyed-without :
      (xs : List (Surface S)) (s : Surface S) (rest : List (Surface S))
      → Keyed (xs ++ s ∷ rest)
      → Keyed (xs ++ rest)
  Keyed-without [] s rest h = h.1
  Keyed-without (x ∷ xs) s rest h =
      let (a, b) = find-append_split x.id xs (s ∷ rest) h.0 in
      (find-append_join x.id xs rest a (find-head x.id s rest b).1, Keyed-without xs s rest h.1)

  find-replaced :
      (id : String) (xs : List (Surface S)) (s t : Surface S) (rest : List (Surface S))
      → s.id ≡ t.id
      → find id (xs ++ s ∷ rest) ≡ none
      → find id (xs ++ t ∷ rest) ≡ none
  find-replaced id xs s t rest p h =
      let (a, b) = find-append_split id xs (s ∷ rest) h in
      let (e, c) = find-head id s rest b in
      find-append_join id xs (t ∷ rest) a
        (find-head_join id t rest (subst (λ x. str_eq x id ≡ false) p e) c)

  -- A surface gives way to another one of the same identity.
  pub Keyed-replaced :
      (xs : List (Surface S)) (s t : Surface S) (rest : List (Surface S))
      → s.id ≡ t.id
      → Keyed (xs ++ s ∷ rest)
      → Keyed (xs ++ t ∷ rest)
  Keyed-replaced [] s t rest p h = (subst (λ x. find x rest ≡ none) p h.0, h.1)
  Keyed-replaced (x ∷ xs) s t rest p h =
      (find-replaced x.id xs s t rest p h.0, Keyed-replaced xs s t rest p h.1)
