-- ===== src/Scripting/Registry/Examples.antt =====
-- Two plugins with a destination and a band each, and a third that wants a place of the first.
use workpane.Prelude.{ℕ, ◌≡◌, ◌↔◌, refl, Bool, map, [], ◌∷◌}
use workpane.Prelude.Int.{ℤ, pos}
use workpane.Prelude.Bytes.{Bytes, codes, same}
use workpane.Result.{success, failure}
use workpane.Scripting.Registry.{
  NavigationPlacement, primary, top, bottom, NavigationItem, BandItem, PluginManifest,
  navigation_taken, band_unknown, height_invalid, find, navigation, bands, claimant, claim, add,
  remove, resize_bands, resize_plugins, resize_band, valid_band_height,
}
use workpane.Scripting.Registry.Consistent.{IsConsistent}
use workpane.Scripting.Registry.Resizing.{Kept, started, added, removed, resized, Kept-IsConsistent}
use workpane.Json.Reader.Examples.{Sample, object, spelled, amount, samples}
use workpane.Json.Reader.{
  opened, finish, first_unknown, holds, is_blank, read_as, read_text, locate, located, answer,
  answer_text, settle, settle_text, consume, contains, choose, find as find_field,
}
use workpane.Scripting.Identifier.{valid}
use workpane.Scripting.Registry.Apart.{AreApart}
use workpane.Scripting.Registry.Bands.{
  read_band, checked, among, parse_bands, AreDeclared, read_bands, parse_bands_iff,
}
use workpane.Scripting.Registry.Exact.{add_iff}

abbrev item : Bytes → NavigationPlacement → ℕ → NavigationItem Unit
item plugin placement n = record {
  plugin = plugin;
  id = codes "home";
  placement = placement;
  order = pos n;
  others = tt;
}

abbrev plugin : Bytes → NavigationPlacement → ℕ → PluginManifest Unit Unit
plugin name placement n = record {
  id = name;
  navigation = item name placement n ∷ [];
  bands =
      record {
        plugin = name;
        id = codes "bar";
        title_key = [];
        placement = bottom;
        order = pos n;
        height = pos 0;
      }
      ∷ [];
  others = tt;
}

abbrev clock : PluginManifest Unit Unit
clock = plugin (codes "clock") primary 1

abbrev notes : PluginManifest Unit Unit
notes = plugin (codes "notes") primary 2

abbrev rival : PluginManifest Unit Unit
rival = plugin (codes "rival") primary 1

abbrev to_string : ℤ → Bytes
to_string n = codes "text"

clock_added : add clock [] ≡ success (clock ∷ [])
unfolding add find navigation bands claim claimant
clock_added = refl

notes_added : add notes (clock ∷ []) ≡ success (clock ∷ notes ∷ [])
unfolding add find navigation bands claim claimant
notes_added = refl

rival_refused :
    add rival (clock ∷ notes ∷ [])
    ≡ failure (
        navigation_taken
          (codes "rival")
          (item (codes "rival") primary 1)
          (item (codes "clock") primary 1))
unfolding add find navigation bands claim claimant
rival_refused = refl

abbrev taller : PluginManifest Unit Unit
taller = record notes {
  bands =
      record {
        plugin = codes "notes";
        id = codes "bar";
        title_key = [];
        placement = bottom;
        order = pos 2;
        height = pos 40;
      }
      ∷ [];
}

notes_resized :
    resize_band to_string (codes "notes") (codes "bar") (pos 40) (clock ∷ notes ∷ [])
    ≡ success (clock ∷ taller ∷ [])
unfolding resize_band resize_plugins resize_bands valid_band_height
notes_resized = refl

unknown_band :
    resize_band to_string (codes "notes") (codes "foot") (pos 40) (clock ∷ notes ∷ [])
    ≡ failure (band_unknown (codes "notes") (codes "foot"))
unfolding resize_band resize_plugins resize_bands valid_band_height
unknown_band = refl

abbrev history : Kept to_string (remove (codes "clock") (clock ∷ taller ∷ []))
history = removed (codes "clock") (
    resized (codes "notes") (codes "bar") (pos 40)
      (added notes (added clock started clock_added) notes_added) notes_resized)

Kept-IsConsistent_example : IsConsistent (remove (codes "clock") (clock ∷ taller ∷ []))
Kept-IsConsistent_example = Kept-IsConsistent history

abbrev clock_kept : IsConsistent (clock ∷ [])
clock_kept =
    let kept : Kept to_string (clock ∷ []) = added clock started clock_added in
    Kept-IsConsistent kept

add_iff_example :
    (add notes (clock ∷ []) ≡ success (clock ∷ notes ∷ [])) ↔ IsConsistent (clock ∷ notes ∷ [])
add_iff_example = add_iff notes (clock ∷ []) clock_kept

abbrev entry : Bytes → ℕ → Sample
entry title height = object (
    ("id", spelled (codes "bar"))
    ∷ ("titleKey", spelled title)
    ∷ ("placement", spelled (codes "top"))
    ∷ ("order", amount 3)
    ∷ ("height", amount height)
    ∷ [])

abbrev is_title : Bytes → Bool
is_title key = same key (codes "clock.bar")

abbrev bar : BandItem
bar = record {
  plugin = codes "clock";
  id = codes "bar";
  title_key = codes "clock.bar";
  placement = top;
  order = pos 3;
  height = pos 40;
}

bar_parsed :
    parse_bands samples is_title (codes "clock") (entry (codes "clock.bar") 40 ∷ []) [] []
    ≡ success (bar ∷ [])
unfolding parse_bands read_band checked among valid valid_band_height finish opened read_text
    read_as locate located find_field answer answer_text settle settle_text consume holds is_blank
    contains first_unknown choose
bar_parsed = refl

small_refused :
    parse_bands samples is_title (codes "clock") (entry (codes "clock.bar") 15 ∷ []) [] []
    ≡ failure (height_invalid (codes "bar"))
unfolding parse_bands read_band checked among valid valid_band_height finish opened read_text
    read_as locate located find_field answer answer_text settle settle_text consume holds is_blank
    contains first_unknown choose
small_refused = refl

parse_bands_iff_example :
    (parse_bands samples is_title (codes "clock") (entry (codes "clock.bar") 40 ∷ []) [] []
      ≡ success (bar ∷ []))
    ↔ (AreDeclared samples is_title (codes "clock") (entry (codes "clock.bar") 40 ∷ [])
        × AreApart (
            map
              (λ (b : BandItem). b.id)
              (read_bands samples is_title (codes "clock") (entry (codes "clock.bar") 40 ∷ [])))
        × (bar ∷ []
            ≡ read_bands samples is_title (codes "clock") (entry (codes "clock.bar") 40 ∷ [])))
parse_bands_iff_example =
    parse_bands_iff samples is_title (codes "clock") (entry (codes "clock.bar") 40 ∷ []) (bar ∷ [])
