-- ===== src/Json/Reader/Judging.antt =====
-- What the decoders of `ObjectReader` refuse is what their kinds complain of.
use Prim.Native.String.{String}
use package.text.Mathlib.Text.{◌==◌ as str_eq}
use workpane.Prelude.{
  ◌≡◌, refl, ◌∙◌, ap, Bool, true, false, not, ◌&&◌, ◌||◌, List, [], ◌∷◌, ◌++◌, none, some,
  Bool-cases, inl, inr, if◌then◌else◌, arith,
}
use workpane.Prelude.Bytes.{Bytes, same}
use workpane.Json.Values.{Values, is_list, items, less_integer}
use workpane.Json.Reader.{
  decoded, wrong_type, out_of_range, holds, is_blank, strings, choose, first_unknown, whole,
  beyond_signed, integer_of,
}
use workpane.Json.Reader.Kinds.{
  Kind, string_kind, boolean_kind, strings_kind, text_kind, integer_kind, number_kind, object_kind,
  array_kind, any_kind, choice_kind, Field, paired, names, refusal_of, decoded_refusal, refusal,
  only_spaces, is_one_of, is_declared, first_undeclared, are_strings, no_choice, ill_typed_entry,
  ill_typed, beyond_range,
}

is_blank-only_spaces : (name : Bytes) → is_blank name ≡ only_spaces name
unfolding is_blank
is_blank-only_spaces [] = refl
is_blank-only_spaces (x ∷ name) = ground (arith, is_blank-only_spaces name)

one_test :
    {A : Type 0} (c : Bool) (a : A)
    → refusal_of (if c then decoded a else wrong_type) ≡ (if not c then some ill_typed else none)
one_test true a = refl
one_test false a = refl

-- The tests of an integer, one after the other.
integer_test :
    {A : Type 0} (integral whole_float beyond below above : Bool) (a : A)
    → refusal_of (
        if not integral && not whole_float
        then wrong_type
        else if beyond
        then out_of_range
        else if below || above
        then out_of_range
        else decoded a)
      ≡ (if not (integral || whole_float)
          then some ill_typed
          else if beyond
          then some beyond_range
          else if below
          then some beyond_range
          else if above
          then some beyond_range
          else none)
integer_test true w true l h a = refl
integer_test true w false true h a = refl
integer_test true w false false true a = refl
integer_test true w false false false a = refl
integer_test false true true l h a = refl
integer_test false true false true h a = refl
integer_test false true false false true a = refl
integer_test false true false false false a = refl
integer_test false false b l h a = refl

number_test :
    {A : Type 0} (numeric finite below above : Bool) (a : A)
    → refusal_of (
        if not numeric
        then wrong_type
        else if not finite || below || above
        then out_of_range
        else decoded a)
      ≡ (if not numeric
          then some ill_typed
          else if not finite
          then some beyond_range
          else if below
          then some beyond_range
          else if above
          then some beyond_range
          else none)
number_test false f l h a = refl
number_test true false l h a = refl
number_test true true true h a = refl
number_test true true false true a = refl
number_test true true false false a = refl

holds-names :
    {R : Type 0} (key : String) (fs : List (Field R)) → holds key (names fs) ≡ is_declared key fs
unfolding holds
holds-names key [] = refl
holds-names key (f ∷ fs) = ap (λ b. str_eq f.key key || b) (holds-names key fs)

module _ {J R : Type 0} (v : Values J R) where
  pub first_unknown-names :
      (fs : List (Field R)) (fields : List (String × J))
      → first_unknown v (names fs) fields ≡ first_undeclared fs fields
  unfolding first_unknown
  first_unknown-names fs [] = refl
  first_unknown-names fs ((key, x) ∷ rest) = elim (Bool-cases (is_declared key fs)) [
    | inl e ↦ rw (holds-names key fs, e) (first_unknown-names fs rest)
    | inr e ↦ rw (holds-names key fs, e) refl
  ]

  strings-refusal :
      (xs : List J) (done : List Bytes)
      → refusal_of (strings v xs done) ≡ (if are_strings v xs then none else some ill_typed_entry)
  unfolding strings
  strings-refusal [] done = refl
  strings-refusal (x ∷ xs) done = elim (Bool-cases (v.is_string x)) [
    | inl e ↦ rw e (strings-refusal xs (done ++ v.string_of x ∷ []))
    | inr e ↦ rw e refl
  ]

  choose-refusal :
      (name : Bytes) (options : List Bytes)
      → refusal_of (choose v name (paired options))
        ≡ (if is_one_of name options then none else some no_choice)
  unfolding choose
  choose-refusal name [] = refl
  choose-refusal name (option ∷ options) = elim (Bool-cases (same option name)) [
    | inl e ↦ rw e refl
    | inr e ↦ rw e (choose-refusal name options)
  ]

  -- Every decoder refuses a value with the first complaint of its kind, and takes one without any.
  pub decoded_refusal-eq : (k : Kind R) (x : J) → decoded_refusal v k x ≡ refusal v k x
  unfolding decoded_refusal refusal
  decoded_refusal-eq string_kind x = one_test (v.is_string x) (v.string_of x)
  decoded_refusal-eq boolean_kind x = one_test (v.is_boolean x) (v.boolean_of x)
  decoded_refusal-eq strings_kind x = elim (Bool-cases (is_list v x)) [
    | inr e ↦ rw e refl
    | inl e ↦ elim (Bool-cases (are_strings v (items v x))) [
      | inl g ↦ rw (e, g) (strings-refusal (items v x) [] ∙ rw g refl)
      | inr g ↦ rw (e, g) (strings-refusal (items v x) [] ∙ rw g refl)
    ]
  ]
  decoded_refusal-eq text_kind x = elim (Bool-cases (v.is_string x)) [
    | inr e ↦ rw e refl
    | inl e ↦ rw (e, is_blank-only_spaces (v.string_of x)) refl
  ]
  decoded_refusal-eq (integer_kind lo hi) x =
      integer_test (v.is_number_integer x) (whole v x) (beyond_signed v x)
        (less_integer (integer_of v x) lo) (less_integer hi (integer_of v x)) (integer_of v x)
  decoded_refusal-eq (number_kind lo hi) x =
      number_test (v.is_number x) (v.is_finite (v.real_of x)) (v.less (v.real_of x) lo)
        (v.less hi (v.real_of x)) (v.real_of x)
  decoded_refusal-eq object_kind x = one_test (v.is_object x) x
  decoded_refusal-eq array_kind x =
      one_test (is_list v x) (if v.is_array x then x else v.empty_array)
  decoded_refusal-eq any_kind x = refl
  decoded_refusal-eq (choice_kind options) x = elim (Bool-cases (v.is_string x)) [
    | inr e ↦ rw e refl
    | inl e ↦ elim (Bool-cases (is_one_of (v.string_of x) options)) [
      | inl g ↦ rw (e, g) (choose-refusal (v.string_of x) options ∙ rw g refl)
      | inr g ↦ rw (e, g) (choose-refusal (v.string_of x) options ∙ rw g refl)
    ]
  ]
