-- ===== src/Persistence/SchemaText/Folding.antt =====
-- A folded text has nothing left to fold.
use workpane.Prelude.{
  ℕ, ◌≡◌, refl, sym, ◌∙◌, ap, ap₂, Bool, true, false, not, ◌&&◌, [], ◌∷◌, ◌++◌, ◌==◌, if◌then◌else◌,
  Bool-cases, inl, inr, arith, append-nil, append_assoc,
}
use workpane.Prelude.Bytes.{Bytes, last_or}
use workpane.Persistence.SchemaText.{
  punctuation, is_blank, quote, holds, spaced, normalize, normalized,
}

-- What is added behind a last character, where there is one.
unfoldable added : Bool → ℕ → Bool → Bytes → Bytes
added begun last space [] = []
added begun last space (x ∷ sql) =
    let quoted = added begun last space sql in
    let blank = added begun last begun sql in
    let other = added true x false sql in
    if x == quote
    then quoted
    else if is_blank x
    then blank
    else if space && not (punctuation last) && not (punctuation x)
    then 32 ∷ x ∷ other
    else x ∷ other

last_or-snoc : (text : Bytes) (x d : ℕ) → last_or (text ++ x ∷ []) d ≡ x
last_or-snoc [] x d = refl
last_or-snoc (y ∷ text) x d = last_or-snoc text x y

holds-append : (text : Bytes) (x : ℕ) (more : Bytes) → holds (text ++ x ∷ more) ≡ true
holds-append [] x more = refl
holds-append (y ∷ text) x more = refl

last_or-append : (text : Bytes) (x y : ℕ) → last_or (text ++ x ∷ y ∷ []) 0 ≡ y
last_or-append text x y =
    ap (λ (l : Bytes). last_or l 0) (sym (append_assoc text (x ∷ []) (y ∷ [])))
    ∙ last_or-snoc (text ++ x ∷ []) y 0

-- Behind a character that stays, it is the last one.
added-spaced :
    (result : Bytes) (space : Bool) (x : ℕ) (sql : Bytes)
    → added
        (holds (result ++ spaced result space x))
        (last_or (result ++ spaced result space x) 0)
        false
        sql
      ≡ added true x false sql
added-spaced result space x sql =
    elim (Bool-cases (space && not (punctuation (last_or result 0)) && not (punctuation x))) [
      | inl g ↦ rw g (
          ap₂ (λ (b : Bool) (l : ℕ). added b l false sql) (holds-append result 32 (x ∷ []))
            (last_or-append result 32 x))
      | inr g ↦ rw g (
          ap₂ (λ (b : Bool) (l : ℕ). added b l false sql) (holds-append result x [])
            (last_or-snoc result x 0))
    ]

spaced-append :
    (c : Bool) (x : ℕ) (out : Bytes)
    → (if c then 32 ∷ x ∷ [] else x ∷ []) ++ out ≡ (if c then 32 ∷ x ∷ out else x ∷ out)
spaced-append true x out = refl
spaced-append false x out = refl

normalize-added :
    (result : Bytes) (space : Bool) (sql : Bytes)
    → normalize result space sql ≡ result ++ added (holds result) (last_or result 0) space sql
unfolding normalize added
normalize-added result space [] = sym (append-nil result)
normalize-added result space (x ∷ sql) = elim (Bool-cases (x == quote)) [
  | inl e ↦ rw e (normalize-added result space sql)
  | inr e ↦ elim (Bool-cases (is_blank x)) [
    | inl f ↦ rw (e, f) (normalize-added result (holds result) sql)
    | inr f ↦
        rw (e, f)
          (normalize-added (result ++ spaced result space x) false sql
            ∙ append_assoc result (spaced result space x) _
            ∙ ap (λ (l : Bytes). result ++ (spaced result space x ++ l))
                (added-spaced result space x sql)
            ∙ ap (λ (l : Bytes). result ++ l)
                (spaced-append
                  (space && not (punctuation (last_or result 0)) && not (punctuation x)) x
                  (added true x false sql)))
  ]
]

added_again :
    (begun : Bool) (last : ℕ) (space : Bool) (sql : Bytes)
    → (space ≡ true → begun ≡ true)
    → added begun last false (added begun last space sql) ≡ added begun last space sql
unfolding added
added_again begun last space [] h = refl
added_again begun last space (x ∷ sql) h = elim (Bool-cases (x == quote)) [
  | inl e ↦ rw e (added_again begun last space sql h)
  | inr e ↦ elim (Bool-cases (is_blank x)) [
    | inl f ↦ rw (e, f) (added_again begun last begun sql (λ g. g))
    | inr f ↦
        let ih = added_again true x false sql (λ g. refl) in
        elim (Bool-cases (space && not (punctuation last) && not (punctuation x))) [
          | inl g ↦
              let b : begun ≡ true = h (ground (arith, g)) in
              let q : (not (punctuation last) && not (punctuation x)) ≡ true = ground (arith, g) in
              rw (e, f, g) (rw (e, f, b, q) (ap (λ (l : Bytes). 32 ∷ x ∷ l) ih))
          | inr g ↦ rw (e, f, g) (rw (e, f) (ap (λ (l : Bytes). x ∷ l) ih))
        ]
  ]
]

-- Folding a text that was folded changes nothing.
pub normalized-normalized : (sql : Bytes) → normalized (normalized sql) ≡ normalized sql
unfolding normalized
normalized-normalized sql =
    let p = normalize-added [] false sql in
    normalize-added [] false (normalize [] false sql)
    ∙ ap (added false 0 false) p
    ∙ added_again false 0 false sql (λ g. cc g)
    ∙ sym p
