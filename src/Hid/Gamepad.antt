-- ===== src/Hid/Gamepad.antt =====
-- app/src/hid/hid_gamepad.c: the slots of the gamepads and their input reports. The list is
-- `hid->slots`; a result `none` of an operation stands for the return value `false`, and `none` around
-- it for a failed assertion. `data` is the array that the report is written to.
pub mod Slots
pub mod Report
use dskcpy.Prelude.{
  ℕ, zero, suc, ◌+◌, ◌-◌, ◌^◌, List, [], ◌∷◌, map, Option, none, some, Bool, true, false,
}
use dskcpy.Prelude.{
  ltb, ◌==◌, if◌then◌else◌, set, get_or, bit_and, bit_or, ℤ, pos, negsuc, pos_part, to_u16,
}
use dskcpy.Util.Binary.{write16le}

pub record Slot : Type 0 where
  pub gamepad_id : ℕ
  pub buttons : ℕ
  pub axis_left_x : ℕ
  pub axis_left_y : ℕ
  pub axis_right_x : ℕ
  pub axis_right_y : ℕ
  pub axis_left_trigger : ℕ
  pub axis_right_trigger : ℕ

-- `SC_GAMEPAD_ID_INVALID` and `SC_HID_ID_GAMEPAD_FIRST`
abbrev pub id_invalid : ℕ
id_invalid = 0

abbrev pub hid_id_first : ℕ
hid_id_first = 3

abbrev pub report_desc : List ℕ
report_desc =
    0x05 ∷ 0x01 ∷ 0x09 ∷ 0x05 ∷ 0xA1 ∷ 0x01 ∷ 0xA1 ∷ 0x00 ∷ 0x05 ∷ 0x01 ∷ 0x09 ∷ 0x30 ∷ 0x09 ∷ 0x31
    ∷ 0x09 ∷ 0x33 ∷ 0x09 ∷ 0x34 ∷ 0x15 ∷ 0x00 ∷ 0x27 ∷ 0xFF ∷ 0xFF ∷ 0x00 ∷ 0x00 ∷ 0x75 ∷ 0x10
    ∷ 0x95 ∷ 0x04 ∷ 0x81 ∷ 0x02 ∷ 0x05 ∷ 0x01 ∷ 0x09 ∷ 0x32 ∷ 0x09 ∷ 0x35 ∷ 0x15 ∷ 0x00 ∷ 0x26
    ∷ 0xFF ∷ 0x7F ∷ 0x75 ∷ 0x10 ∷ 0x95 ∷ 0x02 ∷ 0x81 ∷ 0x02 ∷ 0x05 ∷ 0x09 ∷ 0x19 ∷ 0x01 ∷ 0x29
    ∷ 0x10 ∷ 0x15 ∷ 0x00 ∷ 0x25 ∷ 0x01 ∷ 0x95 ∷ 0x10 ∷ 0x75 ∷ 0x01 ∷ 0x81 ∷ 0x02 ∷ 0x05 ∷ 0x01
    ∷ 0x09 ∷ 0x39 ∷ 0x15 ∷ 0x01 ∷ 0x25 ∷ 0x08 ∷ 0x75 ∷ 0x04 ∷ 0x95 ∷ 0x01 ∷ 0x81 ∷ 0x42 ∷ 0xC0
    ∷ 0xC0 ∷ []

-- `AXIS_RESCALE`, where the sum cannot overflow for a 16-bit value.
unfoldable pub axis_rescale : ℤ → ℕ
axis_rescale (pos n) = to_u16 (pos (n + 0x8000))
axis_rescale (negsuc n) =
    to_u16 (if ltb n 0x8000 then pos (0x8000 - suc n) else negsuc (n - 0x8000))

unfoldable pub slot_init : ℕ → Slot
unfolding axis_rescale
slot_init id = record {
  gamepad_id = id;
  buttons = 0;
  axis_left_x = axis_rescale (pos 0);
  axis_left_y = axis_rescale (pos 0);
  axis_right_x = axis_rescale (pos 0);
  axis_right_y = axis_rescale (pos 0);
  axis_left_trigger = 0;
  axis_right_trigger = 0;
}

unfoldable pub slot_find : List Slot → ℕ → Option ℕ
slot_find [] id = none
slot_find (s ∷ slots) id =
    if id == s.gamepad_id
    then some 0
    else elim (slot_find slots id) [ none ↦ none | some i ↦ some (suc i) ]

-- `sc_hid_gamepad_init` sets the ids of whatever the slots hold.
unfoldable pub init : List Slot → List Slot
init slots = map (λ (s : Slot). record s { gamepad_id = id_invalid }) slots

abbrev pub slot_get_id : ℕ → ℕ
slot_get_id slot_idx = hid_id_first + slot_idx

unfoldable pub generate_open : List Slot → ℕ → Option (Option ℕ × List Slot)
generate_open slots id = if id == id_invalid then none else elim (slot_find slots id_invalid) [
  | none ↦ some (none, slots)
  | some i ↦ some (some (slot_get_id i), set slots i (slot_init id))
]

unfoldable pub generate_close : List Slot → ℕ → Option (Option ℕ × List Slot)
generate_close slots id = if id == id_invalid then none else elim (slot_find slots id) [
  | none ↦ some (none, slots)
  | some i ↦ some (
    some (slot_get_id i),
    set slots i (record (get_or slots i (slot_init 0)) { gamepad_id = id_invalid }),
  )
]

-- Whether `buttons & mask` is not 0.
abbrev pub has : ℕ → ℕ → Bool
has buttons mask = if bit_and buttons mask == 0 then false else true

unfoldable pub get_dpad_value : ℕ → ℕ
get_dpad_value buttons =
    let left = has buttons 0x40000 in
    let right = has buttons 0x80000 in
    if has buttons 0x10000
    then (if left then 8 else if right then 2 else 1)
    else if has buttons 0x20000
    then (if left then 6 else if right then 4 else 5)
    else if left
    then 7
    else if right
    then 3
    else 0

unfoldable pub event_from_slot : Slot → List ℕ → List ℕ
event_from_slot s data0 =
    let d0 = write16le data0 0 s.axis_left_x in
    let d1 = write16le d0 2 s.axis_left_y in
    let d2 = write16le d1 4 s.axis_right_x in
    let d3 = write16le d2 6 s.axis_right_y in
    let d4 = write16le d3 8 s.axis_left_trigger in
    let d5 = write16le d4 10 s.axis_right_trigger in
    let d6 = write16le d5 12 (bit_and s.buttons 0xffff) in set d6 14 (get_dpad_value s.buttons)

-- `enum sc_gamepad_button`; `other` is any other value, and whether it is from 0 to 15.
pub data Button : Type 0 where
  south : Button
  east : Button
  west : Button
  north : Button
  back : Button
  guide : Button
  start : Button
  left_stick : Button
  right_stick : Button
  left_shoulder : Button
  right_shoulder : Button
  dpad_up : Button
  dpad_down : Button
  dpad_left : Button
  dpad_right : Button
  other : (in_range : Bool) → Button

unfoldable pub get_button_id : Button → ℕ
get_button_id south = 0x0001
get_button_id east = 0x0002
get_button_id west = 0x0008
get_button_id north = 0x0010
get_button_id back = 0x0400
get_button_id guide = 0x1000
get_button_id start = 0x0800
get_button_id left_stick = 0x2000
get_button_id right_stick = 0x4000
get_button_id left_shoulder = 0x0040
get_button_id right_shoulder = 0x0080
get_button_id dpad_up = 0x10000
get_button_id dpad_down = 0x20000
get_button_id dpad_left = 0x40000
get_button_id dpad_right = 0x80000
get_button_id (other in_range) = 0

abbrev pub in_range : Button → Bool
in_range (other within) = within
in_range _ = true

-- The id and the report of an input event, and the slots.
abbrev pub Input : Type 0
Input = Option (ℕ × List ℕ) × List Slot

abbrev pub send : List Slot → ℕ → Slot → List ℕ → Input
send slots i s data0 = (some (slot_get_id i, event_from_slot s data0), set slots i s)

unfoldable pub input_from_button : List Slot → ℕ → Button → Bool → List ℕ → Input
input_from_button slots id button down data0 =
    if in_range button
    then elim (slot_find slots id) [
      | none ↦ (none, slots)
      | some i ↦
          (let s = get_or slots i (slot_init 0) in
            let mask = get_button_id button in
            if mask == 0
            then (none, slots)
            else send slots i
                (record s {
                  buttons =
                      if down then bit_or s.buttons mask else bit_and s.buttons (2 ^ 32 - 1 - mask);
                })
                data0)
    ]
    else (none, slots)

pub data Axis : Type 0 where
  left_x : Axis
  left_y : Axis
  right_x : Axis
  right_y : Axis
  left_trigger : Axis
  right_trigger : Axis
  unknown_axis : Axis

-- The slot after the event; `none` is the `default` of the `switch`.
unfoldable pub set_axis : Slot → Axis → ℤ → Option Slot
set_axis s left_x v = some (record s { axis_left_x = axis_rescale v })
set_axis s left_y v = some (record s { axis_left_y = axis_rescale v })
set_axis s right_x v = some (record s { axis_right_x = axis_rescale v })
set_axis s right_y v = some (record s { axis_right_y = axis_rescale v })
set_axis s left_trigger v = some (record s { axis_left_trigger = to_u16 (pos (pos_part v)) })
set_axis s right_trigger v = some (record s { axis_right_trigger = to_u16 (pos (pos_part v)) })
set_axis s unknown_axis v = none

unfoldable pub input_from_axis : List Slot → ℕ → Axis → ℤ → List ℕ → Input
input_from_axis slots id axis v data0 = elim (slot_find slots id) [
  | none ↦ (none, slots)
  | some i ↦ elim (set_axis (get_or slots i (slot_init 0)) axis v) [
    | none ↦ (none, slots)
    | some s ↦ send slots i s data0
  ]
]
