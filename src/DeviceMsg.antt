-- ===== src/DeviceMsg.antt =====
-- app/src/device_msg.h and device_msg.c: the messages from the device, and how the client reads
-- one off the bytes that it has received so far. The list is the `len` bytes at `buf`. `malloc`
-- tells for which sizes memory is found. The pressure of a touch stays the 16-bit word that the
-- code turns into a float, and a `pts` its 64 bits.
pub mod Prefix
pub mod Consumed
use dskcpy.Prelude.{ℕ, ◌+◌, ◌-◌, ◌^◌, List, [], ◌∷◌, Bool, true, false, not, ◌&&◌, ◌||◌}
use dskcpy.Prelude.{
  ltb, leb, ◌==◌, if◌then◌else◌, ℤ, pos, negsuc, leb_ℤ, to_i32, length, get_or, take, drop,
}
use dskcpy.Util.Binary.{read16be, read32be, read64be}
use dskcpy.ControlMsg.Types.{Position}

pub data DeviceMsg : Type 0 where
  clipboard : (text : List ℕ) → DeviceMsg
  ack_clipboard : (sequence : ℕ) → DeviceMsg
  uhid_output : (id : ℕ) (bytes : List ℕ) → DeviceMsg
  reverse_touch :
      (action pointer_id : ℕ) (position : Position) (pressure action_button buttons : ℕ) → DeviceMsg
  reverse_frame_ack : (pts : ℕ) → DeviceMsg
  reverse_system_action : (action : ℕ) → DeviceMsg
  reverse_audio_ack : (pts : ℕ) → DeviceMsg
  reverse_scroll : (position : Position) (dx dy : ℤ) → DeviceMsg

-- The results 0, -1, and the number of bytes consumed.
pub data Parsed : Type 0 where
  incomplete : Parsed
  failed : Parsed
  message : (consumed : ℕ) (msg : DeviceMsg) → Parsed

abbrev pub position_at : List ℕ → ℕ → Position
position_at buf i = record {
  x = to_i32 (read32be buf i);
  y = to_i32 (read32be buf (i + 4));
  width = read16be buf (i + 8);
  height = read16be buf (i + 10);
}

module _ (malloc : ℕ → Bool) where
  unfoldable pub parse_clipboard : List ℕ → Parsed
  parse_clipboard buf =
      if ltb (length buf) 5
      then incomplete
      else (let clipboard_len = read32be buf 1 in
          if ltb (length buf - 5) clipboard_len
          then incomplete
          else (if malloc (clipboard_len + 1)
              then message (5 + clipboard_len) (clipboard (take clipboard_len (drop 5 buf)))
              else failed))

  unfoldable pub parse_uhid_output : List ℕ → Parsed
  parse_uhid_output buf =
      if ltb (length buf) 5
      then incomplete
      else (let size = read16be buf 3 in
          if ltb (length buf - 5) size
          then incomplete
          else (if malloc size
              then message (5 + size) (uhid_output (read16be buf 1) (take size (drop 5 buf)))
              else failed))

-- A message of a fixed size.
unfoldable pub parse_fixed : ℕ → List ℕ → DeviceMsg → Parsed
parse_fixed size buf msg = if ltb (length buf) size then incomplete else message size msg

abbrev pub touch_at : List ℕ → DeviceMsg
touch_at buf =
    reverse_touch (get_or buf 1 0) (read64be buf 2) (position_at buf 10) (read16be buf 22)
      (read32be buf 24) (read32be buf 28)

-- `-120 <= d && d <= 120`
abbrev pub in_bounds : ℤ → Bool
in_bounds d = leb_ℤ (negsuc 119) d && leb_ℤ d (pos 120)

unfoldable pub parse_scroll : List ℕ → Parsed
parse_scroll buf =
    if ltb (length buf) 21
    then incomplete
    else (let dx = to_i32 (read32be buf 13) in
        let dy = to_i32 (read32be buf 17) in
        if in_bounds dx && in_bounds dy
        then message 21 (reverse_scroll (position_at buf 1) dx dy)
        else failed)

module _ (malloc : ℕ → Bool) where
  -- The `switch` of `sc_device_msg_deserialize`.
  unfoldable pub dispatch : ℕ → List ℕ → Parsed
  dispatch type buf =
      if type == 0
      then parse_clipboard malloc buf
      else if type == 1
      then parse_fixed 9 buf (ack_clipboard (read64be buf 1))
      else if type == 2
      then parse_uhid_output malloc buf
      else if type == 3
      then parse_fixed 32 buf (touch_at buf)
      else if type == 7
      then parse_scroll buf
      else if type == 4
      then parse_fixed 9 buf (reverse_frame_ack (read64be buf 1))
      else if type == 6
      then parse_fixed 9 buf (reverse_audio_ack (read64be buf 1))
      else if type == 5
      then parse_fixed 2 buf (reverse_system_action (get_or buf 1 0))
      else failed

  unfoldable pub deserialize : List ℕ → Parsed
  unfolding dispatch
  deserialize buf = if length buf == 0 then incomplete else dispatch (get_or buf 0 0) buf
