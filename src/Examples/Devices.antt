-- ===== src/Examples/Devices.antt =====
-- Bytes from a device, in several chunks.
use dskcpy.Prelude.{ℕ, ◌≡◌, ◌≢◌, ◌++◌, refl, sym, ◌∙◌, List, [], ◌∷◌, Bool, true, false, arith}
use dskcpy.DeviceMsg.{
  reverse_system_action, incomplete, message, deserialize, dispatch, parse_fixed,
}
use dskcpy.DeviceMsg.Prefix.{deserialize-append}
use dskcpy.Receiver.{ended, no_room, process_msgs, run_receiver}
use dskcpy.Receiver.Stream.{Outcome, process_msgs-Outcome}
use dskcpy.Receiver.Chunks.{received, IsSession, run_receiver-IsSession, chunks_irrelevant}

abbrev memory : ℕ → Bool
memory n = true

-- A system action and the start of another.
abbrev two_actions : List ℕ
two_actions = 5 ∷ 1 ∷ 5 ∷ []

action : deserialize memory two_actions ≡ message 2 (reverse_system_action 1)
unfolding deserialize dispatch parse_fixed
action = refl

action_ends : deserialize memory two_actions ≢ incomplete
unfolding deserialize dispatch parse_fixed
action_ends e = cc

deserialize_example : deserialize memory (two_actions ++ (2 ∷ [])) ≡ deserialize memory two_actions
deserialize_example = deserialize-append memory two_actions (2 ∷ []) action_ends

process_msgs_example : Outcome memory two_actions 0 (process_msgs memory 4 two_actions 0)
process_msgs_example = process_msgs-Outcome memory 4 two_actions 0 (omega arith) (omega arith)

-- The same bytes in one chunk and in three.
abbrev one_chunk : List (List ℕ)
one_chunk = (5 ∷ 1 ∷ 5 ∷ 2 ∷ []) ∷ []

abbrev three_chunks : List (List ℕ)
three_chunks = (5 ∷ []) ∷ (1 ∷ 5 ∷ []) ∷ (2 ∷ []) ∷ []

run_receiver_example :
    IsSession memory [] (received three_chunks) (run_receiver memory three_chunks [])
run_receiver_example = run_receiver-IsSession memory three_chunks

ended_ne : ended false ≢ no_room
ended_ne e = cc

one_chunk_ends : (run_receiver memory one_chunk []).ending ≡ ended false
unfolding run_receiver deserialize dispatch parse_fixed
one_chunk_ends = refl

three_chunks_end : (run_receiver memory three_chunks []).ending ≡ ended false
unfolding run_receiver deserialize dispatch parse_fixed
three_chunks_end = refl

chunks_example :
    ((run_receiver memory one_chunk []).messages ≡ (run_receiver memory three_chunks []).messages)
    × ((run_receiver memory one_chunk []).ending ≡ (run_receiver memory three_chunks []).ending)
unfolding received
chunks_example =
    chunks_irrelevant memory one_chunk three_chunks refl (λ e. ended_ne (sym one_chunk_ends ∙ e))
      (λ e. ended_ne (sym three_chunks_end ∙ e))
