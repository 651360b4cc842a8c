-- ===== src/Examples/Gamepads.antt =====
-- Two gamepads in three slots.
use dskcpy.Prelude.{ℕ, ◌+◌, ◌≡◌, ◌≢◌, ◌++◌, refl, List, [], ◌∷◌, some, arith, drop, replicate}
use dskcpy.Hid.Gamepad.{
  Slot, slot_find, generate_open, generate_close, hid_id_first, id_invalid, event_from_slot,
}
use dskcpy.Hid.Gamepad.Slots.{open_close}
use dskcpy.Hid.Gamepad.Report.{report, event_from_slot-report}

abbrev pad : ℕ → Slot
pad id = record {
  gamepad_id = id;
  buttons = 0x20001;
  axis_left_x = 0x8000;
  axis_left_y = 0x1234;
  axis_right_x = 0;
  axis_right_y = 0xffff;
  axis_left_trigger = 0;
  axis_right_trigger = 0x7fff;
}

abbrev three_slots : List Slot
three_slots = pad 7 ∷ pad 0 ∷ pad 9 ∷ []

open_close_example :
    (opened : List Slot) × (closed : List Slot) × (generate_open three_slots 5
      ≡ some (some (hid_id_first + 1), opened))
    × (slot_find opened 5 ≡ some 1)
    × ((c : ℕ) → c ≢ id_invalid → c ≢ 5 → slot_find opened c ≡ slot_find three_slots c)
    × (generate_close opened 5 ≡ some (some (hid_id_first + 1), closed))
    × ((c : ℕ) → c ≢ id_invalid → slot_find closed c ≡ slot_find three_slots c)
unfolding slot_find
open_close_example = open_close three_slots 5 1 (omega arith) refl refl

report_example :
    event_from_slot (pad 7) (replicate 15 0) ≡ report (pad 7) ++ drop 15 (replicate 15 0)
report_example = event_from_slot-report (pad 7) (replicate 15 0) (omega arith)
