-- ===== src/Scripting/Registry.antt =====
-- `PluginRegistry` of src/scripting/PluginRegistry.cpp: the plugins with the destinations and bands that they
-- declare. `X` and `Y` are the fields of a destination and of a manifest that the registry only passes on. The
-- groups of settings, and the reading of a manifest but for its bands in Bands, are left out.
pub mod Apart
pub mod Bands
pub mod Consistent
pub mod Exact
pub mod Resizing
pub mod Examples
use workpane.Prelude.{
  ℕ, ◌+◌, Bool, true, false, not, ◌&&◌, ◌||◌, List, [], ◌∷◌, ◌++◌, Option, none, some, ◌==◌,
  if◌then◌else◌,
}
use Prim.Native.String.{String}
use workpane.Prelude.Int.{ℤ, pos, negsuc}
use workpane.Prelude.Bytes.{Bytes, codes, same}
use workpane.Result.{Error, Result, success, failure, Part, text, bytes, ◌>>=◌, ◌>>◌}
use workpane.Json.Values.{Values, less_integer}
use workpane.Json.Reader.{
  ObjectReader, required, opened, read_as, read_text, as_choice, as_integer, finish, maximum_signed,
}
use workpane.Scripting.Identifier.{valid}

pub data NavigationPlacement : Type 0 where
  primary : NavigationPlacement
  secondary : NavigationPlacement

pub data BandPlacement : Type 0 where
  top : BandPlacement
  bottom : BandPlacement

pub record NavigationItem (X : Type 0) : Type 0 where
  pub plugin : Bytes
  pub id : Bytes
  pub placement : NavigationPlacement
  pub order : ℤ
  pub others : X

pub record BandItem : Type 0 where
  pub plugin : Bytes
  pub id : Bytes
  pub title_key : Bytes
  pub placement : BandPlacement
  pub order : ℤ
  pub height : ℤ

pub record PluginManifest (X Y : Type 0) : Type 0 where
  pub id : Bytes
  pub navigation : List (NavigationItem X)
  pub bands : List BandItem
  pub others : Y

abbrev pub same_integer : ℤ → ℤ → Bool
same_integer (pos a) (pos b) = a == b
same_integer (pos a) (negsuc b) = false
same_integer (negsuc a) (pos b) = false
same_integer (negsuc a) (negsuc b) = a == b

abbrev same_navigation : NavigationPlacement → NavigationPlacement → Bool
same_navigation primary primary = true
same_navigation primary secondary = false
same_navigation secondary primary = false
same_navigation secondary secondary = true

abbrev same_band : BandPlacement → BandPlacement → Bool
same_band top top = true
same_band top bottom = false
same_band bottom top = false
same_band bottom bottom = true

-- `existing.placement == item.placement && existing.order == item.order`.
abbrev pub same_navigation_place : NavigationPlacement × ℤ → NavigationPlacement × ℤ → Bool
same_navigation_place (a, n) (b, k) = same_navigation a b && same_integer n k

abbrev pub same_band_place : BandPlacement × ℤ → BandPlacement × ℤ → Bool
same_band_place (a, n) (b, k) = same_band a b && same_integer n k

abbrev pub refused : String → String → List Part → Error
refused code message detail = record { code = code; message = message; detail = detail }

abbrev pub duplicate : Bytes → Error
duplicate id = refused "plugin_duplicate" "Two plugins declare one identifier" (bytes id ∷ [])

abbrev pub height_invalid : Bytes → Error
height_invalid name =
    refused "shell_band_height_invalid"
      "A band is hidden with a height of zero or stands from 16 to 320 points tall"
      (bytes name ∷ [])

abbrev pub band_unknown : Bytes → Bytes → Error
band_unknown id item =
    refused "shell_band_unknown" "The plugin declares no band under that identity"
      (bytes id ∷ text ":" ∷ bytes item ∷ [])

unfoldable pub valid_band_height : ℤ → Bool
valid_band_height height =
    same_integer height (pos 0)
    || not (less_integer height (pos 16)) && not (less_integer (pos 320) height)

-- The loops of `add` over the items that are left, with those that claim a position already.
module _ {A P : Type 0} (place : A → P) (same_place : P → P → Bool) (taken : A → A → Error) where
  unfoldable pub claimant : P → List A → Option A
  claimant p [] = none
  claimant p (existing ∷ rest) =
      if same_place (place existing) p then some existing else claimant p rest

  abbrev pub free : A → Option A → Result (Unit {0})
  free item none = success tt
  free item (some existing) = failure (taken item existing)

  unfoldable pub claim : List A → List A → Result (Unit {0})
  claim claimed [] = success tt
  claim claimed (item ∷ rest) =
      free item (claimant (place item) claimed) >> claim (claimed ++ item ∷ []) rest

abbrev pub navigation_place : {X : Type 0} → NavigationItem X → NavigationPlacement × ℤ
navigation_place item = (item.placement, item.order)

abbrev pub band_place : BandItem → BandPlacement × ℤ
band_place band = (band.placement, band.order)

abbrev pub navigation_taken : {X : Type 0} → Bytes → NavigationItem X → NavigationItem X → Error
navigation_taken id item existing =
    refused "plugin_navigation_order_taken"
      "A navigation position is already claimed by another destination"
      (bytes id
        ∷ text ":"
        ∷ bytes item.id
        ∷ text " and "
        ∷ bytes existing.plugin
        ∷ text ":"
        ∷ bytes existing.id
        ∷ [])

abbrev pub band_taken : Bytes → BandItem → BandItem → Error
band_taken id band existing =
    refused "plugin_band_order_taken" "A band position is already claimed by another band" (
      bytes id
      ∷ text ":"
      ∷ bytes band.id
      ∷ text " and "
      ∷ bytes existing.plugin
      ∷ text ":"
      ∷ bytes existing.id
      ∷ [])

-- The inner loop of `resizeBand`; `none` where no band is found.
unfoldable pub resize_bands : Bytes → ℤ → List BandItem → Option (List BandItem)
resize_bands item height [] = none
resize_bands item height (band ∷ rest) =
    let later = resize_bands item height rest in
    if same band.id item
    then some (record band { height = height } ∷ rest)
    else elim later [ none ↦ none | some resized ↦ some (band ∷ resized) ]

module _ {X Y : Type 0} where
  unfoldable pub find : Bytes → List (PluginManifest X Y) → Option (PluginManifest X Y)
  find id [] = none
  find id (m ∷ rest) = if same m.id id then some m else find id rest

  unfoldable pub navigation : List (PluginManifest X Y) → List (NavigationItem X)
  navigation [] = []
  navigation (m ∷ rest) = m.navigation ++ navigation rest

  unfoldable pub bands : List (PluginManifest X Y) → List BandItem
  bands [] = []
  bands (m ∷ rest) = m.bands ++ bands rest

  abbrev pub unique : Bytes → Option (PluginManifest X Y) → Result (Unit {0})
  unique id none = success tt
  unique id (some m) = failure (duplicate id)

  unfoldable pub add :
      PluginManifest X Y → List (PluginManifest X Y) → Result (List (PluginManifest X Y))
  add m plugins =
      unique m.id (find m.id plugins)
      >> claim navigation_place same_navigation_place (navigation_taken m.id) (navigation plugins)
          m.navigation
      >> claim band_place same_band_place (band_taken m.id) (bands plugins) m.bands
      >> success (plugins ++ m ∷ [])

  unfoldable pub remove : Bytes → List (PluginManifest X Y) → List (PluginManifest X Y)
  remove id [] = []
  remove id (m ∷ rest) = let others = remove id rest in if same m.id id then others else m ∷ others

  -- The outer loop of `resizeBand`.
  unfoldable pub resize_plugins :
      Bytes → Bytes → ℤ → List (PluginManifest X Y) → Option (List (PluginManifest X Y))
  resize_plugins id item height [] = none
  resize_plugins id item height (m ∷ rest) =
      let later = resize_plugins id item height rest in
      elim (if same m.id id then resize_bands item height m.bands else none) [
        | some resized ↦ some (record m { bands = resized } ∷ rest)
        | none ↦ elim later [ none ↦ none | some changed ↦ some (m ∷ changed) ]
      ]

  abbrev or_unknown :
      Bytes → Bytes → Option (List (PluginManifest X Y)) → Result (List (PluginManifest X Y))
  or_unknown id item none = failure (band_unknown id item)
  or_unknown id item (some plugins) = success plugins

  -- `to_string` is the standard library's text of a number.
  unfoldable pub resize_band :
      (ℤ → Bytes)
      → Bytes
      → Bytes
      → ℤ
      → List (PluginManifest X Y)
      → Result (List (PluginManifest X Y))
  resize_band to_string id item height plugins =
      if not (valid_band_height height)
      then failure (height_invalid (to_string height))
      else or_unknown id item (resize_plugins id item height plugins)
