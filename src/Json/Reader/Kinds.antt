-- ===== src/Json/Reader/Kinds.antt =====
-- The caller of an `ObjectReader`, which reads a list of declared fields and finishes, and what the
-- header of src/json/ObjectReader.h promises of it: a missing, mistyped, out of range or unknown field
-- refuses the whole object, with the first refusal.
use Prim.Native.String.{String}
use package.text.Mathlib.Text.{◌==◌ as str_eq}
use workpane.Prelude.{
  Bool, true, false, not, ◌&&◌, ◌||◌, ltb, List, [], ◌∷◌, map, Option, none, some, if◌then◌else◌,
}
use workpane.Prelude.Int.{ℤ}
use workpane.Prelude.Bytes.{Bytes, same, holds_byte}
use workpane.Result.{Error, Result, success, failure}
use workpane.Json.Values.{Values, is_list, items, less_integer}
use workpane.Json.Reader.{
  Presence, required, optional, ObjectReader, Decoded, decoded, refused, not_object, at_field,
  is_blank, find, read_as, read_text, as_string, as_boolean, as_strings, as_integer, as_number,
  as_object, as_array, as_any, as_choice,
}

-- The read that a field is declared with.
pub data Kind (R : Type 0) : Type 0 where
  string_kind : Kind R
  boolean_kind : Kind R
  strings_kind : Kind R
  text_kind : Kind R
  integer_kind : ℤ → ℤ → Kind R
  number_kind : R → R → Kind R
  object_kind : Kind R
  array_kind : Kind R
  any_kind : Kind R
  choice_kind : List Bytes → Kind R

pub record Field (R : Type 0) : Type 0 where
  pub key : String
  pub presence : Presence
  pub kind : Kind R

-- Choices that answer themselves.
abbrev pub paired : List Bytes → List (Bytes × Bytes)
paired names = map (λ name. (name, name)) names

abbrev pub refusal_of : {A : Type 0} → Decoded A → Option (String × String)
refusal_of (decoded a) = none
refusal_of (refused code message) = some (code, message)

abbrev pub names : {R : Type 0} → List (Field R) → List String
names [] = []
names (f ∷ fs) = f.key ∷ names fs

abbrev pub or_else : Option Error → Option Error → Option Error
or_else none later = later
or_else (some e) later = some e

abbrev pub ill_typed : String × String
ill_typed = ("json_field_type", "A field carries a value of the wrong type")

abbrev pub ill_typed_entry : String × String
ill_typed_entry = ("json_field_type", "A list carries an entry of the wrong type")

abbrev pub beyond_range : String × String
beyond_range = ("json_field_range", "A field carries a value outside its range")

abbrev pub no_choice : String × String
no_choice = ("json_field_choice", "A field carries a value outside its closed set")

abbrev pub left_empty : String × String
left_empty = ("json_field_empty", "A field that names something is empty")

-- A space, a tab, a carriage return or a line feed, and no other byte.
abbrev pub only_spaces : Bytes → Bool
only_spaces [] = true
only_spaces (x ∷ rest) = holds_byte x (32 ∷ 9 ∷ 13 ∷ 10 ∷ []) && only_spaces rest

abbrev pub is_one_of : Bytes → List Bytes → Bool
is_one_of name [] = false
is_one_of name (option ∷ rest) = same option name || is_one_of name rest

abbrev pub first_complaint : List (Bool × (String × String)) → Option (String × String)
first_complaint [] = none
first_complaint ((holds, complaint) ∷ rest) = if holds then some complaint else first_complaint rest

abbrev pub is_declared : {R : Type 0} → String → List (Field R) → Bool
is_declared key [] = false
is_declared key (f ∷ fs) = str_eq f.key key || is_declared key fs

-- The first key of an object that no field declares.
abbrev pub first_undeclared : {J R : Type 0} → List (Field R) → List (String × J) → Option String
first_undeclared fs [] = none
first_undeclared fs ((key, x) ∷ rest) =
    if is_declared key fs then first_undeclared fs rest else some key

module _ {J R : Type 0} (v : Values J R) where
  -- The reader after the read of a declared field.
  unfoldable pub step_kind : Kind R → String → Presence → ObjectReader J → ObjectReader J
  step_kind string_kind key presence r = (read_as v (as_string v) key presence r).0
  step_kind boolean_kind key presence r = (read_as v (as_boolean v) key presence r).0
  step_kind strings_kind key presence r = (read_as v (as_strings v) key presence r).0
  step_kind text_kind key presence r = (read_text v key presence r).0
  step_kind (integer_kind lo hi) key presence r = (read_as v (as_integer v lo hi) key presence r).0
  step_kind (number_kind lo hi) key presence r = (read_as v (as_number v lo hi) key presence r).0
  step_kind object_kind key presence r = (read_as v (as_object v) key presence r).0
  step_kind array_kind key presence r = (read_as v (as_array v) key presence r).0
  step_kind any_kind key presence r = (read_as v (as_any v) key presence r).0
  step_kind (choice_kind options) key presence r =
      (read_as v (as_choice v (paired options)) key presence r).0

  abbrev pub step : Field R → ObjectReader J → ObjectReader J
  step f r = step_kind f.kind f.key f.presence r

  unfoldable pub run : List (Field R) → ObjectReader J → ObjectReader J
  run [] r = r
  run (f ∷ fs) r = run fs (step f r)

  abbrev pub text_refusal : Bytes → Option (String × String)
  text_refusal name =
      if is_blank name
      then some ("json_field_empty", "A field that names something is empty")
      else none

  abbrev pub text_refusal_of : Decoded Bytes → Option (String × String)
  text_refusal_of (refused code message) = some (code, message)
  text_refusal_of (decoded name) = text_refusal name

  -- What the decoder of a kind makes of a value.
  unfoldable pub decoded_refusal : Kind R → J → Option (String × String)
  decoded_refusal string_kind x = refusal_of (as_string v x)
  decoded_refusal boolean_kind x = refusal_of (as_boolean v x)
  decoded_refusal strings_kind x = refusal_of (as_strings v x)
  decoded_refusal text_kind x = text_refusal_of (as_string v x)
  decoded_refusal (integer_kind lo hi) x = refusal_of (as_integer v lo hi x)
  decoded_refusal (number_kind lo hi) x = refusal_of (as_number v lo hi x)
  decoded_refusal object_kind x = refusal_of (as_object v x)
  decoded_refusal array_kind x = refusal_of (as_array v x)
  decoded_refusal any_kind x = none
  decoded_refusal (choice_kind names) x = refusal_of (as_choice v (paired names) x)

  -- A whole number that is written as a float.
  abbrev pub is_whole_float : J → Bool
  is_whole_float x = v.is_number_float x && v.is_finite (v.real_of x) && v.is_whole (v.real_of x)

  -- It does not fit a signed integer of 64 bits.
  abbrev pub is_beyond : J → Bool
  is_beyond x =
      (v.is_number_unsigned x && ltb 9223372036854775807 (v.unsigned_of x))
      || (is_whole_float x
          && (v.less (v.real_of x) v.negated_bound || not (v.less (v.real_of x) v.signed_bound)))

  abbrev pub number_of : J → ℤ
  number_of x = if is_whole_float x then v.to_integer (v.real_of x) else v.signed_of x

  abbrev pub are_strings : List J → Bool
  are_strings [] = true
  are_strings (x ∷ xs) = v.is_string x && are_strings xs

  -- The complaints about a value of a kind, each with when it is made, in order.
  abbrev pub complaints : Kind R → J → List (Bool × (String × String))
  complaints string_kind x = (not (v.is_string x), ill_typed) ∷ []
  complaints boolean_kind x = (not (v.is_boolean x), ill_typed) ∷ []
  complaints strings_kind x =
      (not (is_list v x), ill_typed) ∷ (not (are_strings (items v x)), ill_typed_entry) ∷ []
  complaints text_kind x =
      (not (v.is_string x), ill_typed) ∷ (only_spaces (v.string_of x), left_empty) ∷ []
  complaints (integer_kind lo hi) x =
      (not (v.is_number_integer x || is_whole_float x), ill_typed)
      ∷ (is_beyond x, beyond_range)
      ∷ (less_integer (number_of x) lo, beyond_range)
      ∷ (less_integer hi (number_of x), beyond_range)
      ∷ []
  complaints (number_kind lo hi) x =
      (not (v.is_number x), ill_typed)
      ∷ (not (v.is_finite (v.real_of x)), beyond_range)
      ∷ (v.less (v.real_of x) lo, beyond_range)
      ∷ (v.less hi (v.real_of x), beyond_range)
      ∷ []
  complaints object_kind x = (not (v.is_object x), ill_typed) ∷ []
  complaints array_kind x = (not (is_list v x), ill_typed) ∷ []
  complaints any_kind x = []
  complaints (choice_kind options) x =
      (not (v.is_string x), ill_typed) ∷ (not (is_one_of (v.string_of x) options), no_choice) ∷ []

  -- Why a value does not fit a kind.
  unfoldable pub refusal : Kind R → J → Option (String × String)
  refusal k x = first_complaint (complaints k x)

  abbrev pub refused_at : String → String → Option (String × String) → Option Error
  refused_at context key none = none
  refused_at context key (some (code, message)) = some (at_field code message context key)

  abbrev pub absence : Presence → Option (String × String)
  absence required = some ("json_field_missing", "A required field is missing")
  absence optional = none

  -- What is wrong with the object as far as one declared field is concerned.
  abbrev pub wrong : Presence → (J → Option (String × String)) → Option J → Option (String × String)
  wrong presence judge none = absence presence
  wrong presence judge (some x) = judge x

  unfoldable pub problem : J → String → Field R → Option Error
  problem value context f =
      refused_at context f.key (wrong f.presence (refusal f.kind) (find f.key (v.fields value)))

  unfoldable pub first_problem : J → String → List (Field R) → Option Error
  first_problem value context [] = none
  first_problem value context (f ∷ fs) =
      or_else (problem value context f) (first_problem value context fs)

  abbrev pub surplus : String → Option String → Result (Unit {0})
  surplus context none = success tt
  surplus context (some key) =
      failure
        (at_field "json_field_unknown" "An object carries a field nobody declares" context key)

  -- The verdict on an object of which exactly the declared fields are allowed.
  abbrev pub judged : J → String → List (Field R) → Option Error → Result (Unit {0})
  judged value context fs (some e) = failure e
  judged value context fs none = surplus context (first_undeclared fs (v.fields value))

  unfoldable pub verdict : J → String → List (Field R) → Result (Unit {0})
  verdict value context fs =
      if v.is_object value
      then judged value context fs (first_problem value context fs)
      else failure (not_object context)
