-- ===== src/Json/Reader/Examples.antt =====
-- Runs of the reader on small objects.
use Prim.Native.String.{String}
use workpane.Prelude.{◌≡◌, refl, ℕ, Bool, true, false, List, [], ◌∷◌, ltb}
use workpane.Prelude.Int.{pos}
use workpane.Prelude.Bytes.{Bytes, codes}
use workpane.Result.{success, failure}
use workpane.Json.Values.{Values}
use workpane.Json.Reader.{
  required, optional, opened, finish, first_unknown, unknown, find, holds, is_blank, read_as,
  read_text, locate, located, answer, answer_text, settle, settle_text, fail, consume, contains,
  at_field,
}
use workpane.Json.Reader.Kinds.{Field, text_kind, integer_kind, run, step_kind, verdict}
use workpane.Json.Reader.Strict.{finish-run}

pub data Leaf : Type 0 where
  spelled : Bytes → Leaf
  amount : ℕ → Leaf

pub data Sample : Type 0 where
  leaf : Leaf → Sample
  object : List (String × Leaf) → Sample

abbrev leaves : List (String × Leaf) → List (String × Sample)
leaves [] = []
leaves ((key, x) ∷ rest) = (key, leaf x) ∷ leaves rest

abbrev sample_fields : Sample → List (String × Sample)
sample_fields (object fields) = leaves fields
sample_fields (leaf x) = []

abbrev is_sample_object : Sample → Bool
is_sample_object (object fields) = true
is_sample_object (leaf x) = false

abbrev is_word : Sample → Bool
is_word (leaf (spelled name)) = true
is_word (leaf (amount n)) = false
is_word (object fields) = false

abbrev is_amount : Sample → Bool
is_amount (leaf (amount n)) = true
is_amount (leaf (spelled name)) = false
is_amount (object fields) = false

abbrev word_of : Sample → Bytes
word_of (leaf (spelled name)) = name
word_of (leaf (amount n)) = []
word_of (object fields) = []

abbrev amount_of : Sample → ℕ
amount_of (leaf (amount n)) = n
amount_of (leaf (spelled name)) = 0
amount_of (object fields) = 0

abbrev pub samples : Values Sample ℕ
samples = record {
  is_object = is_sample_object;
  is_array = λ x. false;
  is_string = is_word;
  is_boolean = λ x. false;
  is_number = is_amount;
  is_number_integer = is_amount;
  is_number_unsigned = is_amount;
  is_number_float = λ x. false;
  fields = sample_fields;
  entries = λ x. [];
  string_of = word_of;
  boolean_of = λ x. false;
  signed_of = λ x. pos (amount_of x);
  unsigned_of = amount_of;
  real_of = amount_of;
  empty_array = object [];
  is_finite = λ x. true;
  is_whole = λ x. true;
  less = ltb;
  to_integer = pos;
  signed_bound = 9223372036854775808;
  negated_bound = 0;
}

abbrev declared : List (Field ℕ)
declared =
    record { key = "name"; presence = required; kind = text_kind }
    ∷ record { key = "size"; presence = optional; kind = integer_kind (pos 1) (pos 9) }
    ∷ []

abbrev complete : Sample
complete = object (("size", amount 4) ∷ ("name", spelled (codes "pane")) ∷ [])

abbrev oversized : Sample
oversized = object (("name", spelled (codes "pane")) ∷ ("size", amount 10) ∷ [])

abbrev surplus : Sample
surplus = object (("extra", amount 4) ∷ ("name", spelled (codes "pane")) ∷ [])

abbrev nameless : Sample
nameless = object (("name", spelled (codes " ")) ∷ [])

run_complete : finish samples (run samples declared (opened samples complete "pane")) ≡ success tt
unfolding finish run opened step_kind read_text read_as locate located find answer answer_text
    settle settle_text consume holds is_blank contains
run_complete = refl

run_oversized :
    finish samples (run samples declared (opened samples oversized "pane"))
    ≡ failure
        (at_field "json_field_range" "A field carries a value outside its range" "pane" "size")
unfolding finish run opened step_kind read_text read_as locate located find answer answer_text
    settle settle_text consume holds is_blank contains fail
run_oversized = refl

run_surplus :
    finish samples (run samples declared (opened samples surplus "pane"))
    ≡ failure (unknown samples "pane" "extra")
unfolding finish run opened step_kind read_text read_as locate located find answer answer_text
    settle settle_text consume holds is_blank contains first_unknown
run_surplus = refl

run_nameless :
    finish samples (run samples declared (opened samples nameless "pane"))
    ≡ failure (at_field "json_field_empty" "A field that names something is empty" "pane" "name")
unfolding finish run opened step_kind read_text read_as locate located find answer answer_text
    settle settle_text consume holds is_blank contains fail
run_nameless = refl

finish-run_example :
    finish samples (run samples declared (opened samples surplus "pane"))
    ≡ verdict samples surplus "pane" declared
finish-run_example = finish-run samples surplus "pane" declared
