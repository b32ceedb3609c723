-- ===== src/Localization/Catalogs.antt =====
-- The catalogs of src/localization/Localization.cpp. A map is the list of its pairs in the order of its
-- keys; the order of the merged maps is not modelled, since they are only looked up and erased.
pub mod Owners
pub mod Entries
pub mod Registration
pub mod Sentences
pub mod Calls
pub mod Examples
use Prim.Native.String.{String}
use workpane.Prelude.{
  ℕ, ◌+◌, ◌%◌, ◌^◌, Bool, true, false, not, ◌&&◌, ◌||◌, List, [], ◌∷◌, ◌++◌, Option, none, some,
  if◌then◌else◌, ◌==◌,
}
use workpane.Prelude.Bytes.{Bytes, codes, same, starts_with}
use workpane.Result.{Error, Result, success, failure, Part, bytes, text, ◌>>=◌, ◌>>◌}
use workpane.Localization.Words.{
  valid_owner, valid_key, valid_locale, placeholders, substitute, base_language, english, Language,
  languages, supported_language,
}

abbrev pub Entries : Type 0
Entries = List (Bytes × Bytes)

abbrev pub Catalog : Type 0
Catalog = List (Bytes × Entries)

pub record Localization : Type 0 where
  pub locales : Catalog
  pub owners : Entries
  pub language : Bytes
  pub generation : ℕ

abbrev pub initial : Localization
initial = record { locales = []; owners = []; language = english; generation = 1 }

module _ {V : Type 0} where
  unfoldable pub find_key : Bytes → List (Bytes × V) → Option V
  find_key key [] = none
  find_key key ((k, v) ∷ rest) = if same k key then some v else find_key key rest

abbrev pub is_some {ℓ} : {V : Type ℓ} → Option V → Bool
is_some none = false
is_some (some v) = true

abbrev pub entries_of : Option Entries → Entries
entries_of none = []
entries_of (some entries) = entries

abbrev pub text_of : Option Bytes → Bytes
text_of none = []
text_of (some t) = t

abbrev pub refused : Bool → String → String → List Part → Result (Unit {0})
refused true code message detail =
    failure (record { code = code; message = message; detail = detail })
refused false code message detail = success tt

-- Only spaces, tabs and ends of lines.
unfoldable pub is_blank : Bytes → Bool
is_blank [] = true
is_blank (x ∷ t) = (x == b' ' || x == 9 || x == 13 || x == 10) && is_blank t

unfoldable pub check_languages : Bytes → Catalog → List Language → Result (Unit {0})
check_languages owner catalog [] = success tt
check_languages owner catalog (language ∷ rest) =
    refused (not (is_some (find_key language.id catalog))) "translation_language_missing"
      "A catalog does not declare every selectable language"
      (bytes owner ∷ text ":" ∷ bytes language.id ∷ [])
    >> check_languages owner catalog rest

-- Without a sentence in English the two sets are not compared.
abbrev pub check_source : Bytes → Bytes → Bytes → Option Bytes → Result (Unit {0})
check_source locale key t none =
    refused true "translation_key_unknown" "A translated key does not exist in English"
      (bytes locale ∷ text ":" ∷ bytes key ∷ [])
check_source locale key t (some source) =
    refused (not (same (placeholders t) (placeholders source))) "translation_arguments_mismatch"
      "A translation declares a different number of arguments than English"
      (bytes locale ∷ text ":" ∷ bytes key ∷ [])

unfoldable pub check_key : Bytes → Result (Unit {0})
check_key key =
    refused (not (valid_key key)) "translation_key_invalid" "A translation key is invalid"
      (bytes key ∷ [])

unfoldable pub check_prefix : Bytes → Bytes → Result (Unit {0})
check_prefix prefix key =
    refused (not (starts_with prefix key)) "translation_key_foreign"
      "A translation key belongs to another owner" (bytes key ∷ [])

unfoldable pub check_value : Bytes → Bytes → Bytes → Result (Unit {0})
check_value locale key t =
    refused (is_blank t) "translation_value_empty" "A translation value is empty"
      (bytes locale ∷ text ":" ∷ bytes key ∷ [])

unfoldable pub check_entries : Bytes → Entries → Bytes → Entries → Result (Unit {0})
check_entries prefix source locale [] = success tt
check_entries prefix source locale ((key, t) ∷ rest) = do
  check_key key
  check_prefix prefix key
  check_value locale key t
  check_source locale key t (find_key key source)
  check_entries prefix source locale rest

unfoldable pub check_missing : Bytes → Entries → Entries → Result (Unit {0})
check_missing locale entries [] = success tt
check_missing locale entries ((key, t) ∷ rest) =
    refused (not (is_some (find_key key entries))) "translation_key_missing"
      "A language does not spell every key English declares"
      (bytes locale ∷ text ":" ∷ bytes key ∷ [])
    >> check_missing locale entries rest

unfoldable pub check_locale : Bytes → Result (Unit {0})
check_locale locale =
    refused (not (valid_locale locale)) "translation_locale_invalid"
      "A catalog declares an invalid locale" (bytes locale ∷ [])

unfoldable pub check_catalog : Bytes → Entries → Catalog → Result (Unit {0})
check_catalog prefix source [] = success tt
check_catalog prefix source ((locale, entries) ∷ rest) = do
  check_locale locale
  check_entries prefix source locale entries
  check_missing locale entries source
  check_catalog prefix source rest

-- `merged.insert(entries.begin(), entries.end())`, which keeps what is there.
unfoldable pub merge_entries : Entries → Entries → Entries
merge_entries merged [] = merged
merge_entries merged ((key, t) ∷ rest) =
    merge_entries (if is_some (find_key key merged) then merged else merged ++ (key, t) ∷ []) rest

unfoldable pub merge_locale : Bytes → Entries → Catalog → Catalog
merge_locale locale entries [] = (locale, merge_entries [] entries) ∷ []
merge_locale locale entries ((l, merged) ∷ rest) =
    if same l locale
    then (l, merge_entries merged entries) ∷ rest
    else (l, merged) ∷ merge_locale locale entries rest

unfoldable pub merge_catalog : Catalog → Catalog → Catalog
merge_catalog locales [] = locales
merge_catalog locales ((locale, entries) ∷ rest) =
    merge_catalog (merge_locale locale entries locales) rest

abbrev pub prefix_of : Bytes → Bytes
prefix_of owner = owner ++ b'.' ∷ []

unfoldable pub check_owner : Bytes → Result (Unit {0})
check_owner owner =
    refused (not (valid_owner owner)) "translation_owner_invalid"
      "A translation owner identifier is invalid" (bytes owner ∷ [])

unfoldable pub check_duplicate : Bytes → Entries → Result (Unit {0})
check_duplicate owner owners =
    refused (is_some (find_key owner owners)) "translation_owner_duplicate"
      "A translation owner registered a second catalog" (bytes owner ∷ [])

unfoldable pub check_registration : Bytes → Catalog → Localization → Result (Unit {0})
check_registration owner catalog s = do
  check_owner owner
  check_duplicate owner s.owners
  check_languages owner catalog languages
  check_catalog (prefix_of owner) (entries_of (find_key english catalog)) catalog

abbrev pub next_generation : ℕ → ℕ
next_generation generation = (generation + 1) % 2 ^ 64

unfoldable pub register_catalog : Bytes → Catalog → Localization → Localization × Result (Unit {0})
register_catalog owner catalog s = elim (check_registration owner catalog s) [
  | failure e ↦ (s, failure e)
  | success u ↦ (
    record s {
      locales = merge_catalog s.locales catalog;
      owners = (owner, prefix_of owner) ∷ s.owners;
      generation = next_generation s.generation;
    },
    success tt,
  )
]

-- `std::erase_if` of the keys with a prefix, in every locale.
unfoldable pub erase_prefix : Bytes → Entries → Entries
erase_prefix prefix [] = []
erase_prefix prefix ((key, t) ∷ rest) =
    let others = erase_prefix prefix rest in
    if starts_with prefix key then others else (key, t) ∷ others

unfoldable pub erase_everywhere : Bytes → Catalog → Catalog
erase_everywhere prefix [] = []
erase_everywhere prefix ((locale, entries) ∷ rest) =
    (locale, erase_prefix prefix entries) ∷ erase_everywhere prefix rest

unfoldable pub erase_key : Bytes → Entries → Entries
erase_key key [] = []
erase_key key ((k, v) ∷ rest) =
    let others = erase_key key rest in if same k key then others else (k, v) ∷ others

unfoldable pub unregister_catalog : Bytes → Localization → Localization
unregister_catalog owner s = elim (find_key owner s.owners) [
  | none ↦ s
  | some prefix ↦ record s {
    locales = erase_everywhere prefix s.locales;
    owners = erase_key owner s.owners;
    generation = next_generation s.generation;
  }
]

unfoldable pub select_language : Bytes → Localization → Localization × Result (Unit {0})
select_language id s =
    if supported_language id
    then (record s { language = id; generation = next_generation s.generation }, success tt)
    else (
      s,
      failure (record {
        code = "application_language_invalid";
        message = "The application language is unsupported";
        detail = bytes id ∷ [];
      }),
    )

-- The sentence of a key in one locale.
unfoldable pub entry : Bytes → Bytes → Catalog → Option Bytes
entry key locale locales = find_key key (entries_of (find_key locale locales))

unfoldable pub first_of : Bytes → List Bytes → Catalog → Option Bytes
first_of key [] locales = none
first_of key (candidate ∷ rest) locales = elim (entry key candidate locales) [
  | none ↦ first_of key rest locales
  | some t ↦ some t
]

unfoldable pub lookup : Bytes → Localization → Option Bytes
lookup key s = first_of key (s.language ∷ base_language s.language ∷ english ∷ []) s.locales

abbrev substituted : Bytes → List Bytes → Option Bytes → Bytes
substituted key arguments none = key
substituted key arguments (some t) = substitute t arguments

unfoldable pub translate : Bytes → Localization → Bytes
translate key s = elim (lookup key s) [ none ↦ key | some t ↦ t ]

unfoldable pub translate_with : Bytes → List Bytes → Localization → Bytes
translate_with key arguments s = substituted key arguments (lookup key s)
