-- ===== src/Json/Values.antt =====
-- What `ObjectReader` asks of nlohmann::json and of doubles: a third-party library and the machine's
-- arithmetic, hence a parameter. `J` is `Json`, `R` is `double`.
use workpane.Prelude.{ℕ, Bool, true, false, List, [], ◌∷◌, map, if◌then◌else◌, ltb}
use workpane.Prelude.Int.{ℤ, pos, negsuc}
use workpane.Prelude.Bytes.{Bytes}
use Prim.Native.String.{String}

pub record Values (J R : Type 0) : Type 0 where
  pub is_object : J → Bool
  pub is_array : J → Bool
  pub is_string : J → Bool
  pub is_boolean : J → Bool
  pub is_number : J → Bool
  pub is_number_integer : J → Bool
  pub is_number_unsigned : J → Bool
  pub is_number_float : J → Bool
  -- The fields of an object in the order of `items()`, the entries of an array, and what `get` reads.
  pub fields : J → List (String × J)
  pub entries : J → List J
  pub string_of : J → Bytes
  pub boolean_of : J → Bool
  pub signed_of : J → ℤ
  pub unsigned_of : J → ℕ
  pub real_of : J → R
  -- `Json::array()`.
  pub empty_array : J
  -- `std::isfinite`, `std::trunc(x) == x`, `<`, and the conversion to `std::int64_t`.
  pub is_finite : R → Bool
  pub is_whole : R → Bool
  pub less : R → R → Bool
  pub to_integer : R → ℤ
  -- 9223372036854775808.0 and its negation.
  pub signed_bound : R
  pub negated_bound : R

-- `<` on `std::int64_t`.
abbrev pub less_integer : ℤ → ℤ → Bool
less_integer (pos a) (pos b) = ltb a b
less_integer (pos a) (negsuc b) = false
less_integer (negsuc a) (pos b) = true
less_integer (negsuc a) (negsuc b) = ltb b a

module _ {J R : Type 0} (v : Values J R) where
  abbrev is_nil : {A : Type 0} → List A → Bool
  is_nil [] = true
  is_nil (x ∷ xs) = false

  -- `ObjectReader::isList`: `value.empty()` of an object.
  abbrev pub is_list : J → Bool
  is_list value =
      if v.is_array value
      then true
      else if v.is_object value
      then is_nil (v.fields value)
      else false

  -- `for (const auto& item : value)` over an array or an object.
  abbrev pub items : J → List J
  items value =
      if v.is_array value then v.entries value else map (λ field. field.1) (v.fields value)
