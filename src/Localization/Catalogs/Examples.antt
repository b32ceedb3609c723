-- ===== src/Localization/Catalogs/Examples.antt =====
-- An owner with one sentence in both languages.
use workpane.Prelude.{◌≡◌, refl, [], ◌∷◌, some}
use workpane.Prelude.Bytes.{Bytes, codes}
use workpane.Result.{success}
use workpane.Localization.Words.{
  english, placeholders, placeholders_from, insert_number, substitute, supported_language,
  any_language, normalize_locale, base_language, resolve_language, valid_owner, valid_key,
  valid_locale, lowercase_word, all_lowercase,
}
use workpane.Localization.Catalogs.{
  Catalog, initial, register_catalog, unregister_catalog, lookup, entry, find_key,
  check_registration, check_owner, check_duplicate, check_languages, check_catalog, check_locale,
  check_entries, check_key, check_prefix, check_value, check_missing, is_blank,
}
use workpane.Localization.Catalogs.Entries.{IsMap}
use workpane.Localization.Catalogs.Sentences.{IsKept, lookup-registered, lookup-unregister-register}
use workpane.Localization.Catalogs.Calls.{
  registering, unregistering, selecting, perform_all, perform_all-initial-IsKept,
}

abbrev greetings : Catalog
greetings =
    (codes "en", (codes "tool.main.hello", codes "Hello %1") ∷ [])
    ∷ (codes "pt", (codes "tool.main.hello", codes "Bom dia %1") ∷ [])
    ∷ []

abbrev tool : Bytes
tool = codes "tool"

greetings-IsMap : IsMap greetings
unfolding find_key
greetings-IsMap = (refl, (refl, tt))

registered_hello : (register_catalog tool greetings initial).1 ≡ success tt
unfolding register_catalog check_registration check_owner check_duplicate check_languages
    check_catalog check_locale check_entries check_key check_prefix check_value check_missing
    is_blank find_key valid_owner valid_key valid_locale lowercase_word all_lowercase placeholders
    placeholders_from insert_number
registered_hello = refl

initial-IsKept : IsKept initial
unfolding perform_all
initial-IsKept = perform_all-initial-IsKept [] tt

hello_entry : entry (codes "tool.main.hello") english greetings ≡ some (codes "Hello %1")
unfolding entry find_key
hello_entry = refl

lookup-registered_example :
    lookup (codes "tool.main.hello") (register_catalog tool greetings initial).0
    ≡ some (codes "Hello %1")
lookup-registered_example =
    lookup-registered tool greetings initial (codes "tool.main.hello") (codes "Hello %1")
      initial-IsKept greetings-IsMap registered_hello hello_entry

lookup-unregister-register_example :
    lookup
      (codes "tool.main.hello")
      (unregister_catalog tool (register_catalog tool greetings initial).0)
    ≡ lookup (codes "tool.main.hello") initial
lookup-unregister-register_example =
    lookup-unregister-register tool greetings initial (codes "tool.main.hello") initial-IsKept
      greetings-IsMap registered_hello

perform_all-initial-IsKept_example : IsKept (
    perform_all
      (registering tool greetings ∷ selecting (codes "pt") ∷ unregistering tool ∷ [])
      initial)
perform_all-initial-IsKept_example =
    perform_all-initial-IsKept
      (registering tool greetings ∷ selecting (codes "pt") ∷ unregistering tool ∷ [])
      (greetings-IsMap, (tt, (tt, tt)))

resolve_brazil : resolve_language (codes "pt_BR.UTF-8") ≡ codes "pt"
unfolding resolve_language supported_language any_language normalize_locale base_language
resolve_brazil = refl

substitute_both : substitute (codes "%2 of %1") (codes "9" ∷ codes "3" ∷ []) ≡ codes "3 of 9"
unfolding substitute
substitute_both = refl
