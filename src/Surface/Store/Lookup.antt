-- ===== src/Surface/Store/Lookup.antt =====
-- Looking surfaces up by their identity, after each change of the list.
use Prim.Native.String.{String}
use package.text.Mathlib.Text.{◌==◌ as str_eq}
use package.text.Mathlib.TextEquality.{eq_iff}
use workpane.Prelude.{
  Bool, true, false, List, [], ◌∷◌, ◌++◌, Option, none, some, ◌≡◌, refl, sym, ◌∙◌, ap, subst,
  Bool-cases, inl, inr, arith,
}
use workpane.Result.{success}
use workpane.Surface.Tree.{Component}
use workpane.Surface.Store.{Surface, Store, find, erase, owned, put_root, of_owner}

pub str_eq-apart : (a b c : String) → str_eq c a ≡ true → str_eq b a ≡ false → str_eq c b ≡ false
str_eq-apart a b c h g = elim (Bool-cases (str_eq c b)) [
  | inl e ↦
      let ca = (eq_iff c a).0 h in
      let cb = (eq_iff c b).0 e in let ba = (eq_iff b a).1 (sym cb ∙ ca) in cc
  | inr e ↦ e
]

pub str_eq-false_symm : (a b : String) → str_eq a b ≡ false → str_eq b a ≡ false
str_eq-false_symm a b h = elim (Bool-cases (str_eq b a)) [
  | inl e ↦ let ab = (eq_iff a b).1 (sym ((eq_iff b a).0 e)) in cc
  | inr e ↦ e
]

module _ {S : Type 0} where
  pub find-erase_other :
      (id gone : String) (s : Surface S) (rest : List (Surface S))
      → str_eq s.id id ≡ false
      → find id (erase gone rest) ≡ find id rest
      → find id (erase gone (s ∷ rest)) ≡ find id (s ∷ rest)
  unfolding find erase
  find-erase_other id gone s rest e h = elim (Bool-cases (str_eq s.id gone)) [
    | inl f ↦ rw (f, e) h
    | inr f ↦ rw (f, e) h
  ]

  pub find-erase :
      (id gone : String) (ss : List (Surface S))
      → str_eq gone id ≡ false
      → find id (erase gone ss) ≡ find id ss
  unfolding find erase
  find-erase id gone [] h = refl
  find-erase id gone (s ∷ rest) h = elim (Bool-cases (str_eq s.id id)) [
    | inl e ↦ let f = str_eq-apart id gone s.id e h in rw (f, e) refl
    | inr e ↦ find-erase_other id gone s rest e (find-erase id gone rest h)
  ]

  pub find-append :
      (id : String) (ss more : List (Surface S)) (s : Surface S)
      → find id ss ≡ some s
      → find id (ss ++ more) ≡ some s
  unfolding find
  find-append id [] more s h = cc
  find-append id (x ∷ rest) more s h = elim (Bool-cases (str_eq x.id id)) [
    | inl e ↦ rw e (rw e at h)
    | inr e ↦ rw e (find-append id rest more s (rw e at h))
  ]

  pub find-cons :
      (id : String) (s : Surface S) (xs ys : List (Surface S))
      → find id xs ≡ find id ys
      → find id (s ∷ xs) ≡ find id (s ∷ ys)
  unfolding find
  find-cons id s xs ys h = elim (Bool-cases (str_eq s.id id)) [ inl e ↦ rw e refl | inr e ↦ rw e h ]

  pub find-put_root :
      (id surface : String) (root : Component S) (ss : List (Surface S))
      → str_eq surface id ≡ false
      → find id (put_root surface root ss) ≡ find id ss
  unfolding find put_root
  find-put_root id surface root [] h = refl
  find-put_root id surface root (s ∷ rest) h = elim (Bool-cases (str_eq s.id surface)) [
    | inl e ↦
        let f = str_eq-apart surface id s.id e (str_eq-false_symm surface id h) in
        rw (e, f) (find-put_root id surface root rest h)
    | inr e ↦
        rw e
          (find-cons id s (put_root surface root rest) rest (find-put_root id surface root rest h))
  ]

  of_owner-success :
      (surface owner : String) (o : Option (Surface S)) (s : Surface S)
      → of_owner surface owner o ≡ success s
      → (o ≡ some s) × (str_eq s.owner owner ≡ true)
  of_owner-success surface owner none s h = cc
  of_owner-success surface owner (some s') s h = elim (Bool-cases (str_eq s'.owner owner)) [
    | inl e ↦
        let h' = rw e at h in
        let p : s' ≡ s = ground arith in (ap some p, subst (λ x. str_eq x.owner owner ≡ true) p e)
    | inr e ↦ let h' = rw e at h in absurd (cc)
  ]

  pub owned-success :
      (surface owner : String) (w : Store S) (s : Surface S)
      → owned surface owner w ≡ success s
      → (find surface w.surfaces ≡ some s) × (str_eq s.owner owner ≡ true)
  unfolding owned
  owned-success surface owner w s h = of_owner-success surface owner (find surface w.surfaces) s h

  -- A surface of another owner lies under another identity than an owned one.
  pub apart :
      (surface owner : String) (w : Store S) (s : Surface S) (id : String) (t : Surface S)
      → find surface w.surfaces ≡ some s
      → str_eq s.owner owner ≡ true
      → find id w.surfaces ≡ some t
      → str_eq t.owner owner ≡ false
      → str_eq surface id ≡ false
  apart surface owner w s id t f g f' g' = elim (Bool-cases (str_eq surface id)) [
    | inl e ↦
        let p = (eq_iff surface id).0 e in
        let q : find surface w.surfaces ≡ find id w.surfaces = ap (λ x. find x w.surfaces) p in cc
    | inr e ↦ e
  ]

  abbrev owner_test : String → Option (Surface S) → Bool
  owner_test owner none = false
  owner_test owner (some s) = str_eq s.owner owner

  pub find-without :
      (owner id : String) (xs : List (Surface S)) (s : Surface S) (rest : List (Surface S))
      (t : Surface S)
      → str_eq s.owner owner ≡ true
      → str_eq t.owner owner ≡ false
      → find id (xs ++ s ∷ rest) ≡ some t
      → find id (xs ++ rest) ≡ some t
  unfolding find
  find-without owner id [] s rest t own foreign h = elim (Bool-cases (str_eq s.id id)) [
    | inl e ↦
        let h' = rw e at h in
        let p : str_eq s.owner owner ≡ str_eq t.owner owner =
          ap (λ (o : Option (Surface S)). owner_test owner o) h' in
        absurd (cc)
    | inr e ↦ rw e at h
  ]
  find-without owner id (x ∷ xs) s rest t own foreign h = elim (Bool-cases (str_eq x.id id)) [
    | inl e ↦ rw e (rw e at h)
    | inr e ↦ rw e (find-without owner id xs s rest t own foreign (rw e at h))
  ]
