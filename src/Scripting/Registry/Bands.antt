-- ===== src/Scripting/Registry/Bands.antt =====
-- `parseBands` of src/scripting/PluginRegistry.cpp: the bands that a manifest declares. `translated` is the check
-- of a key against the catalogs.
use workpane.Prelude.{
  ◌≡◌, refl, sym, ◌∙◌, ap, subst, Bool, true, false, not, ◌||◌, List, [], ◌∷◌, ◌++◌, map,
  append-nil, append_assoc, Option, none, some, if◌then◌else◌, Bool-cases, inl, inr, ◌↔◌, arith,
}
use workpane.Prelude.Int.{ℤ, pos, negsuc}
use workpane.Prelude.Bytes.{Bytes, codes, same, same-eq, same_refl}
use workpane.Result.{Result, success, failure, bytes, ◌>>◌}
use workpane.Json.Values.{Values}
use workpane.Json.Reader.{
  ObjectReader, required, opened, read_as, read_text, as_choice, as_integer, finish, maximum_signed,
}
use workpane.Scripting.Identifier.{valid}
use workpane.Scripting.Registry.{
  BandPlacement, top, bottom, BandItem, refused, height_invalid, valid_band_height,
}
use workpane.Scripting.Registry.Apart.{IsMissing, AreApart, AreApart-append, AreApart-split}

abbrev or_else : {A : Type 0} → A → Option A → A
or_else a none = a
or_else a (some b) = b

abbrev pub largest_order : ℤ
largest_order = pos 100000

abbrev pub band_placements : List (Bytes × BandPlacement)
band_placements = (codes "top", top) ∷ (codes "bottom", bottom) ∷ []

-- `ids.contains`.
unfoldable pub among : Bytes → List Bytes → Bool
among id [] = false
among id (x ∷ xs) = same x id || among id xs

-- What a chain of two checks that succeeds has passed.
passed_by :
    {A : Type 0} (r s : Result (Unit {0})) (k : Result A) {a : A}
    → (r >> s >> k) ≡ success a
    → (r ≡ success tt) × (s ≡ success tt) × (k ≡ success a)
passed_by (success u) (success w) k h = (refl, refl, h)
passed_by (failure e) s k h = cc
passed_by (success u) (failure e) k h = cc

module _ {J R : Type 0} (v : Values J R) (translated : Bytes → Bool) (owner : Bytes) where
  -- The reads of one entry, with what they leave in the band.
  unfoldable pub read_band : J → ObjectReader J × BandItem
  read_band entry =
      let (r₁, id) = read_text v "id" required (opened v entry "bands") in
      let (r₂, title_key) = read_text v "titleKey" required r₁ in
      let (r₃, placement) = read_as v (as_choice v band_placements) "placement" required r₂ in
      let (r₄, order) = read_as v (as_integer v (pos 0) largest_order) "order" required r₃ in
      let (r₅, height) =
        read_as v (as_integer v (negsuc maximum_signed) (pos maximum_signed)) "height" required
          r₄ in
      (
        r₅,
        record {
          plugin = owner;
          id = or_else [] id;
          title_key = or_else [] title_key;
          placement = or_else bottom placement;
          order = or_else (pos 0) order;
          height = or_else (pos 0) height;
        },
      )

  unfoldable pub checked : List Bytes → BandItem → Result (Unit {0})
  checked ids band =
      if not (valid band.id) || among band.id ids
      then failure (
          refused "band_identifier_invalid"
            "A band identifier is invalid or repeated inside its plugin" (bytes band.id ∷ []))
      else if not (translated band.title_key)
      then failure (
          refused "band_title_untranslated" "A band title is not spelled by its own catalog"
            (bytes band.title_key ∷ []))
      else if not (valid_band_height band.height)
      then failure (height_invalid band.id)
      else success tt

  -- The loop of `parseBands`, with the identifiers and the bands so far.
  unfoldable pub parse_bands : List J → List Bytes → List BandItem → Result (List BandItem)
  parse_bands [] ids parsed = success parsed
  parse_bands (entry ∷ rest) ids parsed =
      let (reader, band) = read_band entry in
      finish v reader
      >> checked ids band
      >> parse_bands rest (ids ++ band.id ∷ []) (parsed ++ band ∷ [])

  -- An entry that is read whole into a band that may stand in a manifest.
  pub record IsDeclared (entry : J) : Type 0 where
    pub read : finish v (read_band entry).0 ≡ success tt
    pub named : valid (read_band entry).1.id ≡ true
    pub titled : translated (read_band entry).1.title_key ≡ true
    pub tall : valid_band_height (read_band entry).1.height ≡ true

  abbrev pub AreDeclared : List J → Type 0
  AreDeclared [] = Unit
  AreDeclared (entry ∷ rest) = IsDeclared entry × AreDeclared rest

  abbrev pub read_bands : List J → List BandItem
  read_bands [] = []
  read_bands (entry ∷ rest) = (read_band entry).1 ∷ read_bands rest

  among-false : (id : Bytes) (ids : List Bytes) → among id ids ≡ false → IsMissing id ids
  unfolding among
  among-false id [] h = tt
  among-false id (x ∷ ids) h = (
    λ e. let t : same x id ≡ true = ap (λ z. same z id) e ∙ same_refl id in ground arith,
    among-false id ids (ground arith),
  )

  among-missing : (id : Bytes) (ids : List Bytes) → IsMissing id ids → among id ids ≡ false
  unfolding among
  among-missing id [] m = refl
  among-missing id (x ∷ ids) (n, m) = elim (Bool-cases (same x id)) [
    | inl t ↦ absurd (n (same-eq x id t))
    | inr f ↦ rw f (among-missing id ids m)
  ]

  -- What the checks of a band that pass have found.
  abbrev Passes : List Bytes → BandItem → Type 0
  Passes ids band =
      (valid band.id ≡ true)
      × (among band.id ids ≡ false)
      × (translated band.title_key ≡ true)
      × (valid_band_height band.height ≡ true)

  checked-Passes :
      (ids : List Bytes) (band : BandItem) → checked ids band ≡ success tt → Passes ids band
  unfolding checked
  checked-Passes ids band h = (ground arith, ground arith, ground arith, ground arith)

  Passes-checked :
      (ids : List Bytes) (band : BandItem) → Passes ids band → checked ids band ≡ success tt
  unfolding checked
  Passes-checked ids band (a, b, c, d) = rw (a, b, c, d) refl

  parse_bands-read_bands :
      (entries : List J) (ids : List Bytes) (parsed : List BandItem) {found : List BandItem}
      → AreApart ids
      → parse_bands entries ids parsed ≡ success found
      → AreDeclared entries
        × AreApart (ids ++ map (λ b. b.id) (read_bands entries))
        × (found ≡ parsed ++ read_bands entries)
  unfolding parse_bands
  parse_bands-read_bands [] ids parsed a h =
      (tt, subst AreApart (sym (append-nil ids)) a, rw (append-nil parsed) cc)
  parse_bands-read_bands (entry ∷ rest) ids parsed a h =
      let (f, c, k) = passed_by (finish v (read_band entry).0) _ _ h in
      let (n, m, t, l) = checked-Passes ids (read_band entry).1 c in
      let id = (read_band entry).1.id in
      let (ds, apart, e) =
        parse_bands-read_bands rest (ids ++ id ∷ []) (parsed ++ (read_band entry).1 ∷ [])
          (AreApart-append id ids (among-false id ids m) a) k in
      (
        (record { read = f; named = n; titled = t; tall = l }, ds),
        subst AreApart (append_assoc ids (id ∷ []) (map (λ b. b.id) (read_bands rest))) apart,
        e ∙ append_assoc parsed ((read_band entry).1 ∷ []) (read_bands rest),
      )

  read_bands-parse_bands :
      (entries : List J) (ids : List Bytes) (parsed : List BandItem)
      → AreDeclared entries
      → AreApart (ids ++ map (λ b. b.id) (read_bands entries))
      → parse_bands entries ids parsed ≡ success (parsed ++ read_bands entries)
  unfolding parse_bands
  read_bands-parse_bands [] ids parsed d a = rw (append-nil parsed) refl
  read_bands-parse_bands (entry ∷ rest) ids parsed (d, ds) a =
      let id = (read_band entry).1.id in
      let m = AreApart-split id ids (map (λ b. b.id) (read_bands rest)) a in
      let c =
        Passes-checked ids (read_band entry).1
          (d.named, among-missing id ids m, d.titled, d.tall) in
      rw (d.read, c)
        (read_bands-parse_bands rest (ids ++ id ∷ []) (parsed ++ (read_band entry).1 ∷ []) ds (
            subst AreApart (sym (append_assoc ids (id ∷ []) (map (λ b. b.id) (read_bands rest)))) a)
          ∙ ap success (append_assoc parsed ((read_band entry).1 ∷ []) (read_bands rest)))

  -- The bands of a manifest are taken as some list exactly when it holds what each entry is read to, in order,
  -- where every entry is read without failure to a valid identifier that no other band has, a translated
  -- title, and a height of zero or from 16 to 320.
  pub parse_bands_iff :
      (entries : List J) (found : List BandItem)
      → (parse_bands entries [] [] ≡ success found) ↔ (
          AreDeclared entries
          × AreApart (map (λ b. b.id) (read_bands entries))
          × (found ≡ read_bands entries))
  parse_bands_iff entries found = (
    parse_bands-read_bands entries [] [] tt,
    λ (d, a, e). rw e (read_bands-parse_bands entries [] [] d a),
  )
