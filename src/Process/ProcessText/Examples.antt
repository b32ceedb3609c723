-- ===== src/Process/ProcessText/Examples.antt =====
-- A character cut between reads, and bytes that are not UTF-8.
use workpane.Prelude.{ℕ, ◌≡◌, refl, true, List, [], ◌∷◌, ◌++◌}
use workpane.Text.Utf8.{sequence_length, follows, all_follow, valid_loop, valid}
use workpane.Process.ProcessText.{
  initial, take_bytes, finish, assemble, next, decide, matched_of, matched_on,
}
use workpane.Process.ProcessText.Reads.{reads, concat, reads-concat}

-- "a" and the first two bytes of U+20AC, then its last one.
abbrev cut : List ℕ
cut = 0x61 ∷ 0xE2 ∷ 0x82 ∷ []

euro_waits : take_bytes cut initial ≡ (record { pending = 0xE2 ∷ 0x82 ∷ [] }, 0x61 ∷ [])
unfolding take_bytes assemble next decide matched_of matched_on sequence_length follows
euro_waits = refl

unfinished_replaced :
    finish (record { pending = 0xE2 ∷ 0x82 ∷ [] }) ≡ (initial, 0xEF ∷ 0xBF ∷ 0xBD ∷ [])
unfolding finish
unfinished_replaced = refl

reads-concat_example :
    reads cut ((0xAC ∷ []) ∷ []) initial ≡ take_bytes (cut ++ concat ((0xAC ∷ []) ∷ [])) initial
reads-concat_example = reads-concat cut ((0xAC ∷ []) ∷ []) initial

euro_valid : valid (0xE2 ∷ 0x82 ∷ 0xAC ∷ []) ≡ true
unfolding valid valid_loop all_follow follows sequence_length
euro_valid = refl
