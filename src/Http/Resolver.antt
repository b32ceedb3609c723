-- ===== src/Http/Resolver.antt =====
-- `StaticFileResolver` of src/http/StaticFileResolver.cpp. The paths and the files are the standard library's
-- and the system's: `Files` has what the resolver asks of them, at one moment.
pub mod Decoding
pub mod Served
pub mod Examples
use workpane.Prelude.{
  ℕ, ◌+◌, ◌*◌, ◌-◌, Bool, true, false, not, ◌&&◌, ◌||◌, List, [], ◌∷◌, ◌++◌, Option, none, some,
  length, take, ltb, leb, ◌==◌, between, if◌then◌else◌,
}
use workpane.Prelude.Bytes.{Bytes, codes, same, starts_with, holds_byte, last_or}
use Prim.Native.String.{String}
use package.text.Mathlib.Text.{◌==◌ as str_eq}
use workpane.Result.{Error, Result, success, failure, ◌>>=◌, ◌>>◌, bytes}
use workpane.Text.Utf8.{valid}
use workpane.Http.MimeTypes.{for_extension}

pub record Files (P : Type 0) : Type 0 where
  -- No character of the path is zero.
  pub is_plain : P → Bool
  pub is_absolute : P → Bool
  -- The path that a text spells, in normal form.
  pub normal : Bytes → P
  -- The path of a name.
  pub named : Bytes → P
  pub has_root_name : P → Bool
  -- The texts of its components, from `begin()` to `end()`.
  pub components : P → List Bytes
  pub join : P → P → P
  pub is_directory : P → Bool
  pub is_regular_file : P → Bool
  -- Nothing where the call fails.
  pub canonical : P → Option P
  pub file_size : P → Option ℕ
  pub can_list : P → Bool
  pub can_read : P → Bool
  -- `PathTextHelper::generic`, which the platforms define: the path's text with forward slashes.
  pub generic : P → Bytes
  pub extension : P → Bytes

pub record ResolvedFile (P : Type 0) : Type 0 where
  pub path : P
  pub size : ℕ
  pub mime_type : String

abbrev pub maximum_target_length : ℕ
maximum_target_length = 8192

abbrev pub maximum_file_size : ℕ
maximum_file_size = 268435456

abbrev pub is_hex : ℕ → Bool
is_hex x = between b'0' b'9' x || between b'a' b'f' x || between b'A' b'F' x

abbrev pub hex : ℕ → ℕ
hex x = if leb x b'9' then x - b'0' else if leb x b'F' then x - b'A' + 10 else x - b'a' + 10

abbrev pub follow : ℕ → Option Bytes → Option Bytes
follow x none = none
follow x (some text) = some (x ∷ text)

unfoldable pub decode : Bytes → Option Bytes
decode [] = some []
decode (x ∷ []) = if x == b'%' then none else some (x ∷ [])
decode (x ∷ a ∷ []) = elim (x == b'%') [ true ↦ none | false ↦ follow x (decode (a ∷ [])) ]
decode (x ∷ a ∷ b ∷ path) = elim (x == b'%') [
  | true ↦ elim (is_hex a && is_hex b) [
    | true ↦ follow (hex a * 16 + hex b) (decode path)
    | false ↦ none
  ]
  | false ↦ follow x (decode (a ∷ b ∷ path))
]

-- `target.substr(0, target.find_first_of("?#"))`.
abbrev pub path_of : Bytes → Bytes
path_of [] = []
path_of (x ∷ target) = let rest = path_of target in if x == b'?' || x == b'#' then [] else x ∷ rest

-- What stands behind the slashes that it begins with.
abbrev pub unrooted : Bytes → Bytes
unrooted [] = []
unrooted (x ∷ path) = let rest = unrooted path in if x == b'/' then rest else x ∷ path

abbrev pub root_invalid : Bytes → Error
root_invalid root = record {
  code = "http_root_invalid";
  message = "The document root is not a readable folder";
  detail = bytes root ∷ [];
}

abbrev pub invalid : Bytes → Error
invalid target = record {
  code = "http_request_invalid";
  message = "The request names a path the server refuses";
  detail = bytes (take 256 target) ∷ [];
}

abbrev pub missing : Bytes → Error
missing target = record {
  code = "http_file_missing";
  message = "The request names no readable file inside the document root";
  detail = bytes (take 256 target) ∷ [];
}

abbrev pub unless : Bool → Error → Result (Unit {0})
unless true e = failure e
unless false e = success tt

abbrev pub present : {A : Type 0} → Option A → Error → Result A
present none e = failure e
present (some a) e = success a

abbrev pub refuses_target : Bytes → Bool
refuses_target target =
    ltb maximum_target_length (length target)
    || holds_byte 0 target
    || not (starts_with (codes "/") target)

abbrev pub refuses_text : Bytes → Bool
refuses_text text = holds_byte 0 text || holds_byte 92 text || not (valid text)

-- The base closes with one slash.
abbrev pub closed : Bytes → Bytes
closed base = if last_or base 0 == b'/' then base else base ++ b'/' ∷ []

-- Whether `..` is the first component.
abbrev pub climbs : List Bytes → Bool
climbs [] = false
climbs (name ∷ rest) = same name (codes "..")

module _ {P : Type 0} (f : Files P) where
  -- `relative.is_absolute() || relative.has_root_name() || (!relative.empty() && *relative.begin() == "..")`.
  unfoldable pub leaves : P → Bool
  leaves relative =
      f.is_absolute relative || f.has_root_name relative || climbs (f.components relative)

  unfoldable pub canonical_root : P → Result P
  canonical_root root =
      if not (f.is_plain root) || not (f.is_absolute root)
      then failure (root_invalid [])
      else elim (f.canonical root) [
        | none ↦ failure (root_invalid (f.generic root))
        | some canonical ↦
            if not (f.is_directory canonical) || not (f.can_list canonical)
            then failure (root_invalid (f.generic root))
            else success canonical
      ]

  unfoldable pub inside : P → P → Bool
  inside root candidate =
      let base = f.generic root in
      let path = f.generic candidate in same path base || starts_with (closed base) path

  -- A folder stands for its page.
  unfoldable pub page : P → P
  page candidate =
      if f.is_directory candidate
      then if f.is_regular_file (f.join candidate (f.named (codes "index.html")))
        then f.join candidate (f.named (codes "index.html"))
        else f.join candidate (f.named (codes "index.htm"))
      else candidate

  abbrev pub refuses_file : P → P → Bool
  refuses_file root canonical = not (inside root canonical) || not (f.is_regular_file canonical)

  unfoldable pub resolve : P → Bytes → Result (ResolvedFile P)
  resolve root target =
      unless (refuses_target target) (invalid target)
      >> (present (decode (path_of target)) (invalid target) >>= λ decoded.
          unless (refuses_text decoded) (invalid target)
          >> (unless (leaves (f.normal (unrooted decoded))) (invalid target)
              >> (present (f.canonical (page (f.join root (f.normal (unrooted decoded)))))
                    (missing target)
                  >>= λ canonical.
                      unless (refuses_file root canonical) (missing target)
                      >> (present (f.file_size canonical) (missing target) >>= λ size.
                          unless (ltb maximum_file_size size || not (f.can_read canonical))
                            (missing target)
                          >> success (record {
                            path = canonical;
                            size = size;
                            mime_type = for_extension (f.extension canonical);
                          })))))

-- The status of an answer that has no file.
abbrev pub status : Error → ℕ
status e = if str_eq e.code "http_file_missing" then 404 else 400
