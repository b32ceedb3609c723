-- ===== src/Json/Reader.antt =====
-- `ObjectReader` of src/json/ObjectReader.cpp. A field that was read is remembered by its key, where the
-- source keeps a pointer to its value: the keys of an object are distinct. A read answers the reader and
-- what it writes to `out`, `none` where it leaves `out` as it was.
pub mod Kinds
pub mod Judging
pub mod Steps
pub mod Strict
pub mod Counting
pub mod Examples
use Prim.Native.String.{String}
use package.text.Mathlib.Text.{◌==◌ as str_eq}
use workpane.Prelude.{
  ℕ, Bool, true, false, not, ◌&&◌, ◌||◌, List, [], ◌∷◌, ◌++◌, Option, none, some, ◌==◌,
  if◌then◌else◌, ltb, length,
}
use workpane.Prelude.Int.{ℤ}
use workpane.Prelude.Bytes.{Bytes, same}
use workpane.Result.{Error, Result, success, failure, text}
use workpane.Json.Values.{Values, is_list, items, less_integer}

pub data Presence : Type 0 where
  required : Presence
  optional : Presence

pub record ObjectReader (J : Type 0) : Type 0 where
  pub value : J
  pub context : String
  pub failure : Option Error
  pub consumed : List String

-- What the body of a read makes of the value of its field: an answer, or a code and a message.
pub data Decoded (A : Type 0) : Type 0 where
  decoded : A → Decoded A
  refused : String → String → Decoded A

abbrev pub wrong_type : {A : Type 0} → Decoded A
wrong_type = refused "json_field_type" "A field carries a value of the wrong type"

abbrev pub wrong_entry : {A : Type 0} → Decoded A
wrong_entry = refused "json_field_type" "A list carries an entry of the wrong type"

abbrev pub out_of_range : {A : Type 0} → Decoded A
out_of_range = refused "json_field_range" "A field carries a value outside its range"

abbrev pub outside_choices : {A : Type 0} → Decoded A
outside_choices = refused "json_field_choice" "A field carries a value outside its closed set"

abbrev pub maximum_signed : ℕ
maximum_signed = 9223372036854775807

abbrev pub not_object : String → Error
not_object context = record {
  code = "json_not_object";
  message = "The value is not a JSON object";
  detail = text context ∷ [];
}

-- `Error{code, message, m_context + "." + key}`.
abbrev pub at_field : String → String → String → String → Error
at_field code message context key = record {
  code = code;
  message = message;
  detail = text context ∷ text "." ∷ text key ∷ [];
}

-- `std::ranges::find(m_consumed, …) != m_consumed.end()`.
unfoldable pub holds : String → List String → Bool
holds key [] = false
holds key (x ∷ xs) = str_eq x key || holds key xs

-- `find_first_not_of(" \t\r\n") == npos`.
unfoldable pub is_blank : Bytes → Bool
is_blank [] = true
is_blank (x ∷ rest) = (x == 32 || x == 9 || x == 13 || x == 10) && is_blank rest

abbrev pub has : {A : Type 0} → Option A → Bool
has none = false
has (some a) = true

module _ {J : Type 0} where
  -- `m_value.find(key)`.
  unfoldable pub find : String → List (String × J) → Option J
  find key [] = none
  find key ((name, value) ∷ rest) = if str_eq name key then some value else find key rest

  unfoldable pub fail : String → String → String → ObjectReader J → ObjectReader J
  fail code message key r = elim r.failure [
    | some e ↦ r
    | none ↦ record r { failure = some (at_field code message r.context key) }
  ]

  unfoldable pub consume : String → ObjectReader J → ObjectReader J
  consume key r = if holds key r.consumed then r else record r { consumed = r.consumed ++ key ∷ [] }

  -- What a read does with the body's verdict.
  unfoldable pub settle :
      {A : Type 0} → String → ObjectReader J → Decoded A → ObjectReader J × Option A
  settle key r (decoded a) = (r, some a)
  settle key r (refused code message) = (fail code message key r, none)

  -- The chain of `readText` after its inner `read`.
  unfoldable pub settle_text :
      String → ObjectReader J → Option Bytes → ObjectReader J × Option Bytes
  settle_text key r none =
      (fail "json_field_empty" "A field that names something is empty" key r, none)
  settle_text key r (some name) =
      if is_blank name
      then (fail "json_field_empty" "A field that names something is empty" key r, none)
      else (r, some name)

module _ {J R : Type 0} (v : Values J R) where
  unfoldable pub opened : J → String → ObjectReader J
  opened value context = record {
    value = value;
    context = context;
    failure = if v.is_object value then none else some (not_object context);
    consumed = [];
  }

  -- `locate` from the result of its search on.
  unfoldable pub located : String → Presence → ObjectReader J → Option J → ObjectReader J × Option J
  located key presence r (some value) = (consume key r, some value)
  located key required r none =
      (fail "json_field_missing" "A required field is missing" key r, none)
  located key optional r none = (r, none)

  unfoldable pub locate : String → Presence → ObjectReader J → ObjectReader J × Option J
  locate key presence r = elim r.failure [
    | some e ↦ (r, none)
    | none ↦ located key presence r (find key (v.fields r.value))
  ]

  -- The rest of a read, behind `locate`.
  unfoldable pub answer :
      {A : Type 0}
      → (J → Decoded A)
      → String
      → ObjectReader J × Option J
      → ObjectReader J × Option A
  answer decode key (r, none) = (r, none)
  answer decode key (r, some value) = settle key r (decode value)

  -- The shape that the reads share.
  unfoldable pub read_as :
      {A : Type 0}
      → (J → Decoded A)
      → String
      → Presence
      → ObjectReader J
      → ObjectReader J × Option A
  read_as decode key presence r = answer decode key (locate key presence r)

  abbrev pub as_string : J → Decoded Bytes
  as_string value = if v.is_string value then decoded (v.string_of value) else wrong_type

  abbrev pub as_boolean : J → Decoded Bool
  as_boolean value = if v.is_boolean value then decoded (v.boolean_of value) else wrong_type

  -- The loop of the list of strings, with the items that were pushed.
  unfoldable pub strings : List J → List Bytes → Decoded (List Bytes)
  strings [] done = decoded done
  strings (item ∷ rest) done =
      let further = strings rest (done ++ v.string_of item ∷ []) in
      if v.is_string item then further else wrong_entry

  abbrev pub as_strings : J → Decoded (List Bytes)
  as_strings value = if is_list v value then strings (items v value) [] else wrong_type

  -- The constant `whole` of `readInteger`.
  abbrev pub whole : J → Bool
  whole value =
      v.is_number_float value && v.is_finite (v.real_of value) && v.is_whole (v.real_of value)

  abbrev pub beyond_signed : J → Bool
  beyond_signed value =
      (v.is_number_unsigned value && ltb maximum_signed (v.unsigned_of value))
      || (whole value
          && (v.less (v.real_of value) v.negated_bound
              || not (v.less (v.real_of value) v.signed_bound)))

  abbrev pub integer_of : J → ℤ
  integer_of value = if whole value then v.to_integer (v.real_of value) else v.signed_of value

  abbrev pub as_integer : ℤ → ℤ → J → Decoded ℤ
  as_integer minimum maximum value =
      if not (v.is_number_integer value) && not (whole value)
      then wrong_type
      else if beyond_signed value
      then out_of_range
      else if less_integer (integer_of value) minimum || less_integer maximum (integer_of value)
      then out_of_range
      else decoded (integer_of value)

  abbrev pub as_number : R → R → J → Decoded R
  as_number minimum maximum value =
      if not (v.is_number value)
      then wrong_type
      else if not (v.is_finite (v.real_of value))
          || v.less (v.real_of value) minimum
          || v.less maximum (v.real_of value)
      then out_of_range
      else decoded (v.real_of value)

  abbrev pub as_object : J → Decoded J
  as_object value = if v.is_object value then decoded value else wrong_type

  abbrev pub as_array : J → Decoded J
  as_array value =
      if is_list v value
      then decoded (if v.is_array value then value else v.empty_array)
      else wrong_type

  abbrev pub as_any : J → Decoded J
  as_any value = decoded value

  -- The loop of `readChoice` over its options.
  unfoldable pub choose : {E : Type 0} → Bytes → List (Bytes × E) → Decoded E
  choose name [] = outside_choices
  choose name ((option, answer) ∷ rest) =
      if same option name then decoded answer else choose name rest

  abbrev pub as_choice : {E : Type 0} → List (Bytes × E) → J → Decoded E
  as_choice options value =
      if v.is_string value then choose (v.string_of value) options else wrong_type

  unfoldable pub contains : String → ObjectReader J → Bool
  contains key r = v.is_object r.value && has (find key (v.fields r.value))

  -- The rest of `readText`, behind its inner `read`.
  unfoldable pub answer_text :
      String → Bool → ObjectReader J × Option Bytes → ObjectReader J × Option Bytes
  answer_text key was_failing (r, name) =
      if was_failing || has r.failure || not (contains key r)
      then (r, none)
      else settle_text key r name

  unfoldable pub read_text : String → Presence → ObjectReader J → ObjectReader J × Option Bytes
  read_text key presence r = answer_text key (has r.failure) (read_as as_string key presence r)

  -- The loop of `finish`.
  unfoldable pub first_unknown : List String → List (String × J) → Option String
  first_unknown known [] = none
  first_unknown known ((key, value) ∷ rest) =
      if holds key known then first_unknown known rest else some key

  abbrev pub unknown : String → String → Error
  unknown = at_field "json_field_unknown" "An object carries a field nobody declares"

  abbrev pub finished : String → Option String → Result (Unit {0})
  finished context none = success tt
  finished context (some key) = Result.failure (unknown context key)

  unfoldable pub finish : ObjectReader J → Result (Unit {0})
  finish r = elim r.failure [
    | some e ↦ Result.failure e
    | none ↦
        if length r.consumed == length (v.fields r.value)
        then success tt
        else finished r.context (first_unknown r.consumed (v.fields r.value))
  ]
