-- ===== src/Terminal/Stream/Examples.antt =====
-- Tests of the stream and its theorems at concrete calls.
use workpane.Prelude.{◌≡◌, refl, List, [], ◌∷◌, none, some, arith}
use workpane.Prelude.Int.{pos}
use workpane.Terminal.Stream.{
  TerminalStream, append, finish, acknowledge, take_output, write, exit_code,
}
use workpane.Terminal.Stream.Bounds.{
  IsValid, Call, appends, finishes, acknowledges, takes, writes, step,
}
use workpane.Terminal.Stream.Flow.{
  IsBalanced, start, run, note, run-start-IsBalanced, exit_code_last,
}

-- Output, its end, and a reader that takes it in slices.
abbrev session : List Call
session =
    appends (1 ∷ 2 ∷ 3 ∷ []) (7 ∷ [])
    ∷ writes (9 ∷ 9 ∷ [])
    ∷ takes 2
    ∷ acknowledges 1
    ∷ finishes (pos 4)
    ∷ appends (5 ∷ []) []
    ∷ takes 2
    ∷ []

pending : TerminalStream
pending = record { output = 1 ∷ 2 ∷ []; directory = []; input = 5; code = none }

pending-IsValid : IsValid pending
unfolding pending
pending-IsValid = record { output = omega arith; input = omega arith }

session_code : exit_code (run start session).stream ≡ some (pos 4)
unfolding exit_code run note append finish acknowledge take_output write
session_code = refl

session_taken : (run start session).taken ≡ 1 ∷ 2 ∷ 3 ∷ []
unfolding run note append finish acknowledge take_output write
session_taken = refl

acknowledge_too_much : (acknowledge pending 6).0 ≡ pending
unfolding acknowledge pending
acknowledge_too_much = refl

run-start-IsBalanced_example : IsBalanced (run start session)
run-start-IsBalanced_example = run-start-IsBalanced session

exit_code_last_example :
    ((run start session).taken ≡ (run start session).accepted)
    × ((c : Call) → exit_code (step (run start session).stream c) ≡ some (pos 4))
exit_code_last_example = exit_code_last session (pos 4) session_code
