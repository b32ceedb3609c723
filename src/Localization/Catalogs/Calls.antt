-- ===== src/Localization/Catalogs/Calls.antt =====
-- Any calls of the catalogs keep them in order.
use workpane.Prelude.{
  true, false, List, [], ◌∷◌, none, some, ◌≡◌, refl, sym, ◌∙◌, ap, subst, if◌then◌else◌, Bool-cases,
  Option-cases, inl, inr, All,
}
use workpane.Prelude.Bytes.{Bytes, same, same-eq, starts_with}
use workpane.Result.{Result-cases}
use workpane.Localization.Words.{valid_owner, supported_language, any_language}
use workpane.Localization.Catalogs.{
  Entries, Catalog, Localization, initial, find_key, register_catalog, unregister_catalog,
  select_language, entry, prefix_of, erase_key,
}
use workpane.Localization.Catalogs.Owners.{valid_owner_unique}
use workpane.Localization.Catalogs.Entries.{IsMap}
use workpane.Localization.Catalogs.Registration.{
  Checked, registered, registered-entry, registered-failure, unregistered-entry,
}
use workpane.Localization.Catalogs.Sentences.{IsKept}
use workpane.Prelude.Bytes.{same_iff}

pub data Call : Type 0 where
  registering : Bytes → Catalog → Call
  unregistering : Bytes → Call
  selecting : Bytes → Call

abbrev pub perform : Call → Localization → Localization
perform (registering owner catalog) s = (register_catalog owner catalog s).0
perform (unregistering owner) s = unregister_catalog owner s
perform (selecting id) s = (select_language id s).0

unfoldable pub perform_all : List Call → Localization → Localization
perform_all [] s = s
perform_all (c ∷ calls) s = perform_all calls (perform c s)

-- A catalog is a map, so that none of its locales stands twice.
abbrev pub IsCall : Call → Type 0
IsCall (registering owner catalog) = IsMap catalog
IsCall (unregistering owner) = Unit
IsCall (selecting id) = Unit

find_key-erase_key :
    (key gone : Bytes) (entries : Entries)
    → find_key key (erase_key gone entries) ≡ (if same gone key then none else find_key key entries)
unfolding find_key erase_key
find_key-erase_key key gone [] = elim (Bool-cases (same gone key)) [
  | inl e ↦ rw e refl
  | inr e ↦ rw e refl
]
find_key-erase_key key gone ((k, v) ∷ rest) = elim (Bool-cases (same k gone)) [
  | inl a ↦
      let c = ap (λ (x : Bytes). same x key) (same-eq k gone a) in
      elim (Bool-cases (same gone key)) [
        | inl b ↦ rw (a, b) (rw b at (find_key-erase_key key gone rest))
        | inr b ↦ let d = c ∙ b in rw (a, b, d) (rw b at (find_key-erase_key key gone rest))
      ]
  | inr a ↦ elim (Bool-cases (same k key)) [
    | inl b ↦
        let d : same gone key ≡ false = elim (Bool-cases (same gone key)) [
          | inl e ↦
              let p = (same_iff k gone).1 (same-eq k key b ∙ sym (same-eq gone key e)) in
              absurd (cc)
          | inr e ↦ e
        ] in
        rw (a, b, d) refl
    | inr b ↦ rw (a, b) (find_key-erase_key key gone rest)
  ]
]

find_key-head :
    (o owner prefix : Bytes) (owners : Entries)
    → find_key o ((owner, prefix) ∷ owners) ≡ none
    → (same owner o ≡ false) × (find_key o owners ≡ none)
unfolding find_key
find_key-head o owner prefix owners h = elim (Bool-cases (same owner o)) [
  | inl e ↦ let h' = rw e at h in absurd (cc)
  | inr e ↦ (e, rw e at h)
]

registered-prefixes :
    (owner : Bytes) (s : Localization) (o p : Bytes)
    → IsKept s
    → find_key o ((owner, prefix_of owner) ∷ s.owners) ≡ some p
    → p ≡ prefix_of o
unfolding find_key
registered-prefixes owner s o p k h = elim (Bool-cases (same owner o)) [
  | inl e ↦
      let h' : some (prefix_of owner) ≡ some p = rw e at h in
      let q : prefix_of owner ≡ p = cc in sym q ∙ ap prefix_of (same-eq owner o e)
  | inr e ↦ k.prefixes o p (rw e at h)
]

registered-orphan :
    (owner : Bytes) (catalog : Catalog) (s : Localization) (o key locale : Bytes)
    → Checked owner catalog s
    → valid_owner o ≡ true
    → same owner o ≡ false
    → starts_with (prefix_of o) key ≡ true
    → entry key locale catalog ≡ none
registered-orphan owner catalog s o key locale c v n f =
    elim (Option-cases (entry key locale catalog)) [
      | inl e ↦ e
      | inr (t, e) ↦
          let p = valid_owner_unique owner o key c.is_valid v (c.own locale key t e) f in
          let q = (same_iff owner o).1 p in absurd (cc)
    ]

register-IsKept :
    (owner : Bytes) (catalog : Catalog) (s : Localization)
    → IsMap catalog
    → IsKept s
    → IsKept (registered owner catalog s)
register-IsKept owner catalog s m k = elim (Result-cases (register_catalog owner catalog s).1) [
  | inl (u, e) ↦
      let (c, o, l, h) = registered-entry owner catalog s m e in
      record {
        prefixes = λ x p g.
            registered-prefixes owner s x p k (sym (ap (λ (y : Entries). find_key x y) o) ∙ g);
        orphans = λ x key locale v g f.
            let (n, g') =
              find_key-head x owner (prefix_of owner) s.owners
                (sym (ap (λ (y : Entries). find_key x y) o) ∙ g) in
            let a = k.orphans x key locale v g' f in
            let b = registered-orphan owner catalog s x key locale c v n f in
            h key locale ∙ rw (a, b) refl;
        supported = ap supported_language l ∙ k.supported;
      }
  | inr (x, e) ↦ subst IsKept (sym (registered-failure owner catalog s x e)) k
]

unregister-none :
    (owner : Bytes) (s : Localization)
    → find_key owner s.owners ≡ none
    → unregister_catalog owner s ≡ s
unfolding unregister_catalog
unregister-none owner s e = rw (e, unregister_catalog) refl

unregister-IsKept :
    (owner : Bytes) (s : Localization) → IsKept s → IsKept (unregister_catalog owner s)
unregister-IsKept owner s k = elim (Option-cases (find_key owner s.owners)) [
  | inl e ↦ subst IsKept (sym (unregister-none owner s e)) k
  | inr (p, e) ↦
      let own : find_key owner s.owners ≡ some (prefix_of owner) =
        e ∙ ap some (k.prefixes owner p e) in
      let (o, l, h) = unregistered-entry owner s own in
      let look : (x : Bytes)
          → find_key x (unregister_catalog owner s).owners
            ≡ (if same owner x then none else find_key x s.owners) =
        λ x. ap (λ (y : Entries). find_key x y) o ∙ find_key-erase_key x owner s.owners in
      record {
        prefixes = λ x q g. elim (Bool-cases (same owner x)) [
          | inl a ↦ let g' : none ≡ some q = sym (rw a at (look x)) ∙ g in absurd (cc)
          | inr a ↦ k.prefixes x q (sym (rw a at (look x)) ∙ g)
        ];
        orphans = λ x key locale v g f.
            h key locale ∙ elim (Bool-cases (starts_with (prefix_of owner) key)) [
              | inl a ↦ rw a refl
              | inr a ↦ rw a (elim (Bool-cases (same owner x)) [
                | inl b ↦
                    let q = ap (λ (y : Bytes). starts_with (prefix_of y) key) (same-eq owner x b) in
                    absurd (cc)
                | inr b ↦ k.orphans x key locale v (sym (rw b at (look x)) ∙ g) f
              ])
            ];
        supported = ap supported_language l ∙ k.supported;
      }
]

select-IsKept : (id : Bytes) (s : Localization) → IsKept s → IsKept (select_language id s).0
unfolding select_language
select-IsKept id s k = elim (Bool-cases (supported_language id)) [
  | inl e ↦ rw e (record { prefixes = k.prefixes; orphans = k.orphans; supported = e })
  | inr e ↦ rw e k
]

perform-IsKept : (c : Call) (s : Localization) → IsCall c → IsKept s → IsKept (perform c s)
perform-IsKept (registering owner catalog) s m k = register-IsKept owner catalog s m k
perform-IsKept (unregistering owner) s m k = unregister-IsKept owner s k
perform-IsKept (selecting id) s m k = select-IsKept id s k

perform_all-IsKept :
    (calls : List Call) (s : Localization)
    → All IsCall calls
    → IsKept s
    → IsKept (perform_all calls s)
unfolding perform_all
perform_all-IsKept [] s m k = k
perform_all-IsKept (c ∷ calls) s m k =
    perform_all-IsKept calls (perform c s) m.1 (perform-IsKept c s m.0 k)

initial-IsKept : IsKept initial
unfolding find_key entry supported_language any_language
initial-IsKept = record {
  prefixes = λ o p h. absurd (cc);
  orphans = λ o key locale v h f. refl;
  supported = refl;
}

-- After any registrations, their ends and choices of a language, where each catalog is a map, every
-- owner has its own prefix, no sentence is left of a valid owner that is not registered, and the
-- selected language is a supported one.
pub perform_all-initial-IsKept :
    (calls : List Call) → All IsCall calls → IsKept (perform_all calls initial)
perform_all-initial-IsKept calls m = perform_all-IsKept calls initial m initial-IsKept
