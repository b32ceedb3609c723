-- ===== src/Terminal/Stream/Flow.antt =====
-- What goes in comes out, in order; the exit code shows only behind the last byte.
use workpane.Prelude.{
  ℕ, zero, suc, ◌+◌, ◌≡◌, List, [], ◌∷◌, ◌++◌, some, arith, length, drop, true, false, refl, min,
  append_assoc, append-nil, take-append-drop, if◌then◌else◌, Bool, ap, ◌∙◌, sym,
}
use workpane.Prelude.Int.{ℤ}
use workpane.Result.{Result, success, failure}
use workpane.Terminal.Stream.{
  TerminalStream, initial, append, finish, acknowledge, take_output, write, exit_code,
}
use workpane.Terminal.Stream.Bounds.{
  IsValid, Call, appends, finishes, acknowledges, takes, writes, step, step-IsValid,
}

-- A stream beside what its callers have seen of it.
pub record Ledger : Type 0 where
  pub stream : TerminalStream
  pub accepted : List ℕ
  pub taken : List ℕ
  pub written : ℕ
  pub acknowledged : ℕ

abbrev pub start : Ledger
start = record { stream = initial; accepted = []; taken = []; written = 0; acknowledged = 0 }

abbrev succeeded : Result (Unit {0}) → Bool
succeeded (success u) = true
succeeded (failure e) = false

-- The ledger notes the bytes of the calls that succeed.
unfoldable pub note : Ledger → Call → Ledger
note l (appends bytes directory) =
    let (s, answer) = append l.stream bytes directory in
    record l { stream = s; accepted = if succeeded answer then l.accepted ++ bytes else l.accepted }
note l (finishes code) = record l { stream = (finish l.stream code).0 }
note l (acknowledges bytes) =
    let (s, answer) = acknowledge l.stream bytes in
    record l {
      stream = s;
      acknowledged = if succeeded answer then l.acknowledged + bytes else l.acknowledged;
    }
note l (takes limit) =
    let (s, bytes) = take_output l.stream limit in record l { stream = s; taken = l.taken ++ bytes }
note l (writes bytes) =
    let (s, done) = write l.stream bytes in
    record l { stream = s; written = if done then l.written + length bytes else l.written }

unfoldable pub run : Ledger → List Call → Ledger
run l [] = l
run l (c ∷ cs) = run (note l c) cs

pub record IsBalanced (l : Ledger) : Type 0 where
  pub bounded : IsValid l.stream
  pub output : l.taken ++ l.stream.output ≡ l.accepted
  pub input : l.stream.input + l.acknowledged ≡ l.written

note-stream : (l : Ledger) (c : Call) → (note l c).stream ≡ step l.stream c
unfolding note
note-stream l (appends bytes directory) = refl
note-stream l (finishes code) = refl
note-stream l (acknowledges bytes) = refl
note-stream l (takes limit) = refl
note-stream l (writes bytes) = refl

note-output :
    (l : Ledger) (c : Call)
    → l.taken ++ l.stream.output ≡ l.accepted
    → (note l c).taken ++ (note l c).stream.output ≡ (note l c).accepted
unfolding note append finish acknowledge take_output write
note-output l (appends bytes directory) h =
    ground (arith, append_assoc l.taken l.stream.output bytes, ap (λ (o : List ℕ). o ++ bytes) h)
note-output l (finishes code) h = ground arith
note-output l (acknowledges bytes) h = ground arith
note-output l (takes limit) h =
    append_assoc l.taken _ _
    ∙ ap (λ (o : List ℕ). l.taken ++ o) (take-append-drop (min limit (length l.stream.output)) _)
    ∙ h
note-output l (writes bytes) h = ground arith

note-input :
    (l : Ledger) (c : Call)
    → IsValid l.stream
    → l.stream.input + l.acknowledged ≡ l.written
    → (note l c).stream.input + (note l c).acknowledged ≡ (note l c).written
unfolding note append finish acknowledge take_output write
note-input l (appends bytes directory) v h = ground arith
note-input l (finishes code) v h = ground arith
note-input l (acknowledges bytes) v h = ground (arith, v.input)
note-input l (takes limit) v h = h
note-input l (writes bytes) v h = ground arith

note-IsBalanced : (l : Ledger) (c : Call) → IsBalanced l → IsBalanced (note l c)
note-IsBalanced l c b = record {
  bounded = rw (note-stream l c) (step-IsValid l.stream c b.bounded);
  output = note-output l c b.output;
  input = note-input l c b.bounded b.input;
}

run-IsBalanced : (l : Ledger) (cs : List Call) → IsBalanced l → IsBalanced (run l cs)
unfolding run
run-IsBalanced l [] b = b
run-IsBalanced l (c ∷ cs) b = run-IsBalanced (note l c) cs (note-IsBalanced l c b)

-- After any calls on a new stream both buffers are within their bound, the bytes taken and those
-- still pending are the accepted ones in their order, and the pending input is what was written and
-- not acknowledged.
pub run-start-IsBalanced : (cs : List Call) → IsBalanced (run start cs)
run-start-IsBalanced cs = run-IsBalanced start cs (record {
  bounded = record { output = omega arith; input = omega arith };
  output = refl;
  input = omega arith;
})

exit_code_lem : (s : TerminalStream) (code : ℤ) → exit_code s ≡ some code → s.output ≡ []
unfolding exit_code
exit_code_lem s code h = ground arith

drop-nil : (n : ℕ) → drop {A = ℕ} n [] ≡ []
drop-nil zero = refl
drop-nil (suc n) = refl

exit_code-step :
    (s : TerminalStream) (c : Call) (code : ℤ)
    → exit_code s ≡ some code
    → exit_code (step s c) ≡ some code
unfolding exit_code append finish acknowledge take_output write
exit_code-step s (appends bytes directory) code h = ground arith
exit_code-step s (finishes other) code h = ground arith
exit_code-step s (acknowledges bytes) code h = ground arith
exit_code-step s (takes limit) code h =
    let k = min limit (length s.output) in
    let e = ap (drop k) (exit_code_lem s code h) ∙ drop-nil k in ground arith
exit_code-step s (writes bytes) code h = ground arith

-- When the exit code of a stream shows, every byte that it ever accepted has been taken, and it goes
-- on showing whatever is called next.
pub exit_code_last :
    (cs : List Call) (code : ℤ)
    → exit_code (run start cs).stream ≡ some code
    → ((run start cs).taken ≡ (run start cs).accepted)
      × ((c : Call) → exit_code (step (run start cs).stream c) ≡ some code)
exit_code_last cs code h =
    let b = (run-start-IsBalanced cs).output in
    (
      sym (append-nil _)
          ∙ ap (λ (o : List ℕ). (run start cs).taken ++ o) (sym (exit_code_lem _ code h))
          ∙ b,
      λ c. exit_code-step _ c code h,
    )
