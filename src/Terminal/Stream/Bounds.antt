-- ===== src/Terminal/Stream/Bounds.antt =====
-- The bounds of the two buffers, and what a stream that has ended refuses.
use workpane.Prelude.{
  ℕ, inl, inr, ◌⊎◌, Bool-cases, Option-cases, ltb, ◌+◌, ◌-◌, ◌≤◌, ◌<◌, ◌≡◌, List, ◌++◌, some, arith,
  length, length-append, length-drop, min, none,
}
use workpane.Prelude.Int.{ℤ}
use workpane.Result.{success, failure}
use workpane.Terminal.Stream.{
  TerminalStream, maximum_pending, sub_size, append, finish, acknowledge, take_output, write, ended,
  full,
}

pub record IsValid (s : TerminalStream) : Type 0 where
  pub output : length s.output ≤ maximum_pending
  pub input : s.input ≤ maximum_pending

-- Within the bounds the subtraction of sizes does not wrap.
pub sub_size_lem : (a b : ℕ) → b ≤ a → a ≤ maximum_pending → sub_size a b ≡ a - b
unfolding sub_size
sub_size_lem a b h k = omega arith

-- One call from outside, with its arguments.
pub data Call : Type 0 where
  appends : List ℕ → List ℕ → Call
  finishes : ℤ → Call
  acknowledges takes : ℕ → Call
  writes : List ℕ → Call

abbrev pub step : TerminalStream → Call → TerminalStream
step s (appends bytes directory) = (append s bytes directory).0
step s (finishes code) = (finish s code).0
step s (acknowledges bytes) = (acknowledge s bytes).0
step s (takes limit) = (take_output s limit).0
step s (writes bytes) = (write s bytes).0

append-IsValid :
    (s : TerminalStream) (bytes directory : List ℕ)
    → IsValid s
    → IsValid (append s bytes directory).0
unfolding append
append-IsValid s bytes directory v =
    ground (arith, sub_size_lem maximum_pending (length s.output), length-append {0} s.output bytes)

acknowledge-IsValid : (s : TerminalStream) (bytes : ℕ) → IsValid s → IsValid (acknowledge s bytes).0
unfolding acknowledge
acknowledge-IsValid s bytes v = ground arith

write-IsValid : (s : TerminalStream) (bytes : List ℕ) → IsValid s → IsValid (write s bytes).0
unfolding write
write-IsValid s bytes v = ground arith

take_output-IsValid : (s : TerminalStream) (limit : ℕ) → IsValid s → IsValid (take_output s limit).0
unfolding take_output
take_output-IsValid s limit v = record {
  output = omega (arith, length-drop (min limit (length s.output)) s.output, v.output);
  input = v.input;
}

finish-IsValid : (s : TerminalStream) (code : ℤ) → IsValid s → IsValid (finish s code).0
unfolding finish
finish-IsValid s code v = ground arith

-- Every call keeps both buffers within their bound.
pub step-IsValid : (s : TerminalStream) (c : Call) → IsValid s → IsValid (step s c)
step-IsValid s (appends bytes directory) v = append-IsValid s bytes directory v
step-IsValid s (finishes code) v = finish-IsValid s code v
step-IsValid s (acknowledges bytes) v = acknowledge-IsValid s bytes v
step-IsValid s (takes limit) v = take_output-IsValid s limit v
step-IsValid s (writes bytes) v = write-IsValid s bytes v

-- In a valid stream `append` answers by exactly three cases: an ended stream refuses, output that
-- would pass the bound is refused whole, and anything else is queued behind what is pending, with
-- the directory replaced if one is given.
pub append_cases :
    (s : TerminalStream) (bytes directory : List ℕ)
    → IsValid s
    → ((code : ℤ) × (s.code ≡ some code) × (append s bytes directory ≡ (s, failure ended)))
      ⊎ ((s.code ≡ none)
          × (maximum_pending < length s.output + length bytes)
          × (append s bytes directory ≡ (s, failure full)))
      ⊎ ((s.code ≡ none)
          × (length s.output + length bytes ≤ maximum_pending)
          × ((append s bytes directory).1 ≡ success tt)
          × ((append s bytes directory).0.output ≡ s.output ++ bytes)
          × ((append s bytes directory).0.code ≡ none))
unfolding append
append_cases s bytes directory v = elim (Option-cases s.code) [
  | inr (code, e) ↦ inl (code, e, ground arith)
  | inl e ↦
      let room = sub_size_lem maximum_pending (length s.output) v.output (omega arith) in
      elim (Bool-cases (ltb maximum_pending (length s.output + length bytes))) [
        | inl over ↦ inr (inl (e, ground arith, ground arith))
        | inr fits ↦ inr (inr (e, ground arith, ground arith, ground arith, ground arith))
      ]
]
