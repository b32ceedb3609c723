-- ===== src/Terminal/Stream.antt =====
-- src/ui/components/terminal/TerminalStream.cpp: the two bounded buffers between a program that
-- another plugin runs and the terminal that draws it. A method returns the new stream and its
-- answer; `std::size_t` has 64 bits, and its subtraction wraps.
pub mod Bounds
pub mod Flow
pub mod Examples
use Prim.Native.String.{String}
use workpane.Prelude.{
  ℕ, ◌+◌, ◌-◌, ◌*◌, ◌%◌, ◌^◌, min, Bool, true, false, ◌||◌, List, [], ◌∷◌, ◌++◌, Option, none, some,
  length, take, drop, ltb, if◌then◌else◌,
}
use workpane.Prelude.Int.{ℤ}
use workpane.Result.{Error, Result, success, failure}

-- `maximumPending`.
abbrev pub maximum_pending : ℕ
maximum_pending = 256 * 1024

pub record TerminalStream : Type 0 where
  pub output : List ℕ
  pub directory : List ℕ
  pub input : ℕ
  pub code : Option ℤ

abbrev pub initial : TerminalStream
initial = record { output = []; directory = []; input = 0; code = none }

abbrev pub ended : Error
ended = record {
  code = "terminal_stream_ended";
  message = "The terminal stream has ended";
  detail = [];
}

abbrev pub full : Error
full = record {
  code = "terminal_stream_full";
  message = "The terminal stream is waiting for its output to be drawn";
  detail = [];
}

abbrev pub bad_acknowledgement : Error
bad_acknowledgement = record {
  code = "terminal_stream_ack_invalid";
  message = "The terminal input acknowledgement exceeds its pending bytes";
  detail = [];
}

-- `a - b` on `std::size_t`.
unfoldable pub sub_size : ℕ → ℕ → ℕ
sub_size a b = (a + 2 ^ 64 - b) % 2 ^ 64

abbrev pub has_value : Option ℤ → Bool
has_value none = false
has_value (some code) = true

abbrev pub is_empty : List ℕ → Bool
is_empty [] = true
is_empty (x ∷ xs) = false

unfoldable pub append : TerminalStream → List ℕ → List ℕ → TerminalStream × Result (Unit {0})
unfolding sub_size
append s bytes directory =
    if has_value s.code
    then (s, failure ended)
    else if ltb (sub_size maximum_pending (length s.output)) (length bytes)
    then (s, failure full)
    else (
      record s {
        output = s.output ++ bytes;
        directory = if is_empty directory then s.directory else directory;
      },
      success tt,
    )

unfoldable pub finish : TerminalStream → ℤ → TerminalStream × Result (Unit {0})
finish s code =
    if has_value s.code then (s, failure ended) else (record s { code = some code }, success tt)

unfoldable pub acknowledge : TerminalStream → ℕ → TerminalStream × Result (Unit {0})
unfolding sub_size
acknowledge s bytes =
    if ltb s.input bytes
    then (s, failure bad_acknowledgement)
    else (record s { input = sub_size s.input bytes }, success tt)

unfoldable pub take_output : TerminalStream → ℕ → TerminalStream × List ℕ
take_output s limit =
    let count = min limit (length s.output) in
    (record s { output = drop count s.output }, take count s.output)

unfoldable pub exit_code : TerminalStream → Option ℤ
exit_code s = if is_empty s.output then s.code else none

unfoldable pub write : TerminalStream → List ℕ → TerminalStream × Bool
unfolding sub_size
write s bytes =
    if has_value s.code || ltb (sub_size maximum_pending s.input) (length bytes)
    then (s, false)
    else (record s { input = s.input + length bytes }, true)
