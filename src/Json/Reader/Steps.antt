-- ===== src/Json/Reader/Steps.antt =====
-- What one read does to a reader: nothing once it has failed, and else what the field deserves.
use Prim.Native.String.{String}
use workpane.Prelude.{
  ◌≡◌, refl, ap, ◌∙◌, inl, inr, Bool-cases, Option-cases, true, false, List, [], ◌∷◌, ◌++◌, Option,
  none, some, if◌then◌else◌,
}
use workpane.Prelude.Bytes.{Bytes}
use workpane.Result.{Error}
use workpane.Json.Values.{Values}
use workpane.Json.Reader.{
  Presence, required, optional, ObjectReader, Decoded, decoded, refused, holds, is_blank, find,
  fail, consume, located, locate, settle, settle_text, read_as, read_text, as_string, as_boolean,
  as_strings, as_integer, as_number, as_object, as_array, as_any, as_choice, contains, answer,
  answer_text,
}
use workpane.Json.Reader.Kinds.{
  Kind, string_kind, boolean_kind, strings_kind, text_kind, integer_kind, number_kind, object_kind,
  array_kind, any_kind, choice_kind, Field, paired, refusal_of, step_kind, run, text_refusal,
  decoded_refusal, refused_at, absence, wrong,
}

abbrev pub add : String → List String → List String
add key keys = if holds key keys then keys else keys ++ key ∷ []

module _ {J R : Type 0} (v : Values J R) where
  -- A reader of `value`, by its failure and the keys it has read.
  abbrev pub reader : J → String → Option Error → List String → ObjectReader J
  reader value context why keys = record {
    value = value;
    context = context;
    failure = why;
    consumed = keys;
  }

  abbrev pub counted : String → Option J → List String → List String
  counted key none keys = keys
  counted key (some x) keys = add key keys

  module _ (value : J) (context : String) where
    step_kind-failing :
        (k : Kind R) (key : String) (presence : Presence) (e : Error) (keys : List String)
        → step_kind v k key presence (reader value context (some e) keys)
          ≡ reader value context (some e) keys
    unfolding step_kind read_as read_text locate answer answer_text
    step_kind-failing string_kind key presence e keys = refl
    step_kind-failing boolean_kind key presence e keys = refl
    step_kind-failing strings_kind key presence e keys = refl
    step_kind-failing text_kind key presence e keys = refl
    step_kind-failing (integer_kind lo hi) key presence e keys = refl
    step_kind-failing (number_kind lo hi) key presence e keys = refl
    step_kind-failing object_kind key presence e keys = refl
    step_kind-failing array_kind key presence e keys = refl
    step_kind-failing any_kind key presence e keys = refl
    step_kind-failing (choice_kind options) key presence e keys = refl

    pub run-failing :
        (fs : List (Field R)) (e : Error) (keys : List String)
        → run v fs (reader value context (some e) keys) ≡ reader value context (some e) keys
    unfolding run
    run-failing [] e keys = refl
    run-failing (f ∷ fs) e keys =
        rw (step_kind-failing f.kind f.key f.presence e keys) (run-failing fs e keys)

    -- The reader that one read leaves behind, by what is wrong with the field.
    abbrev pub advanced :
        String → Presence → (J → Option (String × String)) → List String → ObjectReader J
    advanced key presence judge keys =
        reader value context
          (refused_at v context key (wrong v presence judge (find key (v.fields value))))
          (counted key (find key (v.fields value)) keys)

    consume-reader :
        (key : String) (keys : List String)
        → consume key (reader value context none keys) ≡ reader value context none (add key keys)
    unfolding consume
    consume-reader key keys = elim (Bool-cases (holds key keys)) [
      | inl e ↦ rw e refl
      | inr e ↦ rw e refl
    ]

    settle-reader :
        {A : Type 0} (key : String) (d : Decoded A) (keys : List String)
        → (settle key (reader value context none keys) d).0
          ≡ reader value context (refused_at v context key (refusal_of d)) keys
    unfolding settle fail
    settle-reader key (decoded a) keys = refl
    settle-reader key (refused code message) keys = refl

    locate-absent :
        (key : String) (presence : Presence) (keys : List String)
        → find key (v.fields value) ≡ none
        → locate v key presence (reader value context none keys)
          ≡ (reader value context (refused_at v context key (absence v presence)) keys, none)
    unfolding locate located fail
    locate-absent key required keys e =
        ap (λ o. located v key required (reader value context none keys) o) e
    locate-absent key optional keys e =
        ap (λ o. located v key optional (reader value context none keys) o) e

    locate-present :
        (key : String) (presence : Presence) (keys : List String) (x : J)
        → find key (v.fields value) ≡ some x
        → locate v key presence (reader value context none keys)
          ≡ (reader value context none (add key keys), some x)
    unfolding locate located
    locate-present key presence keys x e =
        ap (λ o. located v key presence (reader value context none keys) o) e
        ∙ ap (λ r. (r, some x)) (consume-reader key keys)

    read_as-absent :
        {A : Type 0} (decode : J → Decoded A) (key : String) (presence : Presence)
        (keys : List String)
        → find key (v.fields value) ≡ none
        → read_as v decode key presence (reader value context none keys)
          ≡ (reader value context (refused_at v context key (absence v presence)) keys, none)
    unfolding read_as answer
    read_as-absent decode key presence keys e =
        ap (answer v decode key) (locate-absent key presence keys e)

    read_as-present :
        {A : Type 0} (decode : J → Decoded A) (key : String) (presence : Presence)
        (keys : List String) (x : J)
        → find key (v.fields value) ≡ some x
        → read_as v decode key presence (reader value context none keys)
          ≡ settle key (reader value context none (add key keys)) (decode x)
    unfolding read_as answer
    read_as-present decode key presence keys x e =
        ap (answer v decode key) (locate-present key presence keys x e)

    read_as-reader :
        {A : Type 0} (decode : J → Decoded A) (key : String) (presence : Presence)
        (keys : List String)
        → (read_as v decode key presence (reader value context none keys)).0
          ≡ advanced key presence (λ x. refusal_of (decode x)) keys
    read_as-reader decode key presence keys = elim (Option-cases (find key (v.fields value))) [
      | inl e ↦ rw e (ap (λ p. p.0) (read_as-absent decode key presence keys e))
      | inr (x, e) ↦ rw e (
          ap (λ p. p.0) (read_as-present decode key presence keys x e)
          ∙ settle-reader key (decode x) (add key keys))
    ]

    -- What the two endings of `read_text` leave of the reader.
    settle_text-reader :
        (key : String) (name : Bytes) (keys : List String)
        → (settle_text key (reader value context none keys) (some name)).0
          ≡ reader value context (refused_at v context key (text_refusal v name)) keys
    unfolding settle_text fail
    settle_text-reader key name keys = elim (Bool-cases (is_blank name)) [
      | inl e ↦ rw e refl
      | inr e ↦ rw e refl
    ]

    text_absent :
        (key : String) (presence : Presence) (keys : List String)
        → find key (v.fields value) ≡ none
        → (answer_text v key false
            (reader value context (refused_at v context key (absence v presence)) keys, none)).0
          ≡ reader value context (refused_at v context key (absence v presence)) keys
    unfolding answer_text contains
    text_absent key required keys e = refl
    text_absent key optional keys e = elim (Bool-cases (v.is_object value)) [
      | inl o ↦ rw (o, e) refl
      | inr o ↦ rw o refl
    ]

    text_present :
        v.is_object value ≡ true
        → (key : String) (keys : List String) (x : J) → find key (v.fields value) ≡ some x
        → (answer_text v key false
            (settle key (reader value context none (add key keys)) (as_string v x))).0
          ≡ reader value context
              (refused_at v context key (decoded_refusal v text_kind x))
              (add key keys)
    unfolding answer_text contains settle decoded_refusal fail
    text_present o key keys x e = elim (Bool-cases (v.is_string x)) [
      | inl s ↦
          rw (decoded_refusal, s, o, e) (settle_text-reader key (v.string_of x) (add key keys))
      | inr s ↦ rw (decoded_refusal, s) refl
    ]

    read_text-reader :
        v.is_object value ≡ true
        → (key : String) (presence : Presence) (keys : List String)
        → (read_text v key presence (reader value context none keys)).0
          ≡ advanced key presence (decoded_refusal v text_kind) keys
    unfolding read_text
    read_text-reader o key presence keys = elim (Option-cases (find key (v.fields value))) [
      | inl e ↦ rw e (
          ap (λ p. (answer_text v key false p).0) (read_as-absent (as_string v) key presence keys e)
          ∙ text_absent key presence keys e)
      | inr (x, e) ↦ rw e (
          ap (λ p. (answer_text v key false p).0)
            (read_as-present (as_string v) key presence keys x e)
          ∙ text_present o key keys x e)
    ]

    -- A read of a healthy reader marks the field and notes what is wrong with it.
    pub step_kind-reader :
        v.is_object value ≡ true
        → (k : Kind R) (key : String) (presence : Presence) (keys : List String)
        → step_kind v k key presence (reader value context none keys)
          ≡ advanced key presence (decoded_refusal v k) keys
    unfolding step_kind decoded_refusal
    step_kind-reader o string_kind key p keys = read_as-reader (as_string v) key p keys
    step_kind-reader o boolean_kind key p keys = read_as-reader (as_boolean v) key p keys
    step_kind-reader o strings_kind key p keys = read_as-reader (as_strings v) key p keys
    step_kind-reader o text_kind key p keys = read_text-reader o key p keys
    step_kind-reader o (integer_kind lo hi) key p keys =
        read_as-reader (as_integer v lo hi) key p keys
    step_kind-reader o (number_kind lo hi) key p keys =
        read_as-reader (as_number v lo hi) key p keys
    step_kind-reader o object_kind key p keys = read_as-reader (as_object v) key p keys
    step_kind-reader o array_kind key p keys = read_as-reader (as_array v) key p keys
    step_kind-reader o any_kind key p keys = read_as-reader (as_any v) key p keys
    step_kind-reader o (choice_kind options) key p keys =
        read_as-reader (as_choice v (paired options)) key p keys
