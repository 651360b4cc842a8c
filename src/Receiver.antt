-- ===== src/Receiver.antt =====
-- app/src/receiver.c: the thread that reads the control socket, cuts the bytes into messages and hands
-- each on to `process_msg`, which is not modelled; `acksync` is set, as it asserts where the device
-- acknowledges a clipboard. `malloc` tells for which sizes memory is found.
-- `chunks` are the bytes that the calls of `net_recv` return, each no longer than the room that the
-- call is given; an empty one, or no more chunks, is the end of the stream.
pub mod Stream
pub mod Chunks
use dskcpy.Prelude.{
  ℕ, zero, suc, ◌+◌, ◌-◌, ◌^◌, List, [], ◌∷◌, ◌++◌, Option, none, some, Bool, true, false, not,
}
use dskcpy.Prelude.{ltb, ◌==◌, if◌then◌else◌, length, drop}
use dskcpy.DeviceMsg.{
  DeviceMsg, clipboard, ack_clipboard, uhid_output, reverse_touch, reverse_frame_ack,
}
use dskcpy.DeviceMsg.{reverse_system_action, reverse_audio_ack, reverse_scroll}
use dskcpy.DeviceMsg.{Parsed, incomplete, failed, message, deserialize}

-- `DEVICE_MSG_MAX_SIZE`
abbrev pub max_size : ℕ
max_size = 2 ^ 18

-- The messages handed to `process_msg`, and the result: an error (-1), or the bytes consumed.
pub data Result : Type 0 where
  out_of_fuel : Result
  broken : Result
  consumed : ℕ → Result

pub record Processed : Type 0 where
  pub messages : List DeviceMsg
  pub result : Result

abbrev pub add_message : DeviceMsg → Processed → Processed
add_message msg p = record { messages = msg ∷ p.messages; result = p.result }

-- How the thread ends: `on_ended` is called with the flag `error`, or the assertion that there is
-- room in the buffer fails.
pub data Ending : Type 0 where
  ended : (error : Bool) → Ending
  no_room : Ending

pub record Session : Type 0 where
  pub messages : List DeviceMsg
  pub ending : Ending

-- What follows the messages of one chunk: `others n` once `n` bytes are consumed.
unfoldable pub resume : List DeviceMsg → Result → (ℕ → Session) → Session
resume messages out_of_fuel others = record { messages = messages; ending = no_room }
resume messages broken others = record { messages = messages; ending = ended true }
resume messages (consumed n) others =
    let rest = others n in record { messages = messages ++ rest.messages; ending = rest.ending }

module _ (malloc : ℕ → Bool) where
  unfoldable pub process_msgs : ℕ → List ℕ → ℕ → Processed
  process_msgs zero buf head = record { messages = []; result = out_of_fuel }
  process_msgs (suc fuel) buf head = elim (deserialize malloc (drop head buf)) [
    | incomplete ↦ record { messages = []; result = consumed head }
    | failed ↦ record { messages = []; result = broken }
    | message n msg ↦ add_message msg (
        if head + n == length buf
        then record { messages = []; result = consumed (head + n) }
        else process_msgs fuel buf (head + n))
  ]

  -- `run_receiver`, where `buf` holds the first `head` bytes of the buffer.
  unfoldable pub run_receiver : List (List ℕ) → List ℕ → Session
  unfolding process_msgs resume
  run_receiver [] buf = record {
    messages = [];
    ending = if ltb (length buf) max_size then ended false else no_room;
  }
  run_receiver (chunk ∷ chunks) buf =
      if ltb (length buf) max_size
      then (if length chunk == 0
          then record { messages = []; ending = ended false }
          else (let received = buf ++ chunk in
              let p = process_msgs (suc (length received)) received 0 in
              resume p.messages p.result (λ n. run_receiver chunks (drop n received))))
      else record { messages = []; ending = no_room }
