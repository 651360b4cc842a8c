-- ===== src/Reverse/Touch/Inject.antt =====
-- app/src/reverse_display.c, `reverse_inject_touch`: what a touch message of the device does.
use dskcpy.Prelude.{
  ℕ, ◌-◌, ◌^◌, Option, none, some, ℤ, length, set, ltb, ◌==◌, if◌then◌else◌, bit_and, get_or,
}
use dskcpy.ControlMsg.Types.{Position}
use dskcpy.Reverse.Geometry.{Desktop, map_position}
use dskcpy.Reverse.Touch.{
  Windows, TouchState, Contact, PointerFlags, flag_down, flag_update, flag_up, no_primary,
  no_contact, find_touch, touch_pressure, add_touch, remove_touch, inject_touch_frame,
  cancel_touches, cleared,
}

pub data Action : Type 0 where
  down : Action
  up : Action
  move : Action
  cancel : Action
  pointer_down : Action
  pointer_up : Action
  other : Action

-- `action & AMOTION_EVENT_ACTION_MASK`
unfoldable pub decode : ℕ → Action
decode action =
    let masked = bit_and action 0xff in
    if masked == 0
    then down
    else if masked == 1
    then up
    else if masked == 2
    then move
    else if masked == 3
    then cancel
    else if masked == 5
    then pointer_down
    else if masked == 6
    then pointer_up
    else other

abbrev pub contact_at : ℕ → ℕ → ℤ × ℤ → Contact
contact_at pointer_id pressure (x, y) = record {
  pointer_id = pointer_id;
  x = x;
  y = y;
  pressure = touch_pressure pressure;
}

abbrev pub moved : TouchState → ℕ → ℕ → ℤ × ℤ → TouchState
moved s i pressure (x, y) =
    let c = get_or s.contacts i no_contact in
    record s {
      contacts = set s.contacts i (record c { x = x; y = y; pressure = touch_pressure pressure });
    }

module _ (windows : Windows) (pointer_id : ℕ) where
  -- What follows the `switch`, for a contact that stays and for one that is lifted.
  unfoldable pub inject_frame : TouchState → ℕ → PointerFlags → TouchState
  inject_frame s index flags =
      let (ok, s1) = inject_touch_frame windows s index flags in if ok then s1 else cleared s1

  unfoldable pub inject_lift : TouchState → ℕ → TouchState
  inject_lift s index =
      let (ok, s1) = inject_touch_frame windows s index flag_up in
      if ok
      then record s1 {
        primary_pointer_id =
            if pointer_id == s1.primary_pointer_id then no_primary else s1.primary_pointer_id;
        contacts = remove_touch s1.contacts index;
      }
      else cleared s1

  -- `none` as the place is a position that is not on the desktop.
  unfoldable pub touch_down : TouchState → Option (ℤ × ℤ) → ℕ → TouchState
  touch_down s place pressure =
      let s0 = if length s.contacts == 0 then s else cancel_touches windows s in
      elim place [
        | none ↦ s0
        | some at ↦ elim (add_touch s0 (contact_at pointer_id pressure at)) [
          | none ↦ s0
          | some s1 ↦
              inject_frame (record s1 { primary_pointer_id = pointer_id }) (length s1.contacts - 1)
                flag_down
        ]
      ]

  unfoldable pub touch_pointer_down : TouchState → Option (ℤ × ℤ) → ℕ → TouchState
  touch_pointer_down s place pressure = elim place [
    | none ↦ s
    | some at ↦ elim (find_touch s.contacts pointer_id) [
      | some i ↦ inject_frame (moved s i pressure at) i flag_down
      | none ↦ elim (add_touch s (contact_at pointer_id pressure at)) [
        | none ↦ s
        | some s1 ↦ inject_frame s1 (length s1.contacts - 1) flag_down
      ]
    ]
  ]

  unfoldable pub touch_move : TouchState → Option (ℤ × ℤ) → ℕ → TouchState
  touch_move s place pressure = elim place [
    | none ↦ s
    | some at ↦ elim (find_touch s.contacts pointer_id) [
      | none ↦ s
      | some i ↦ inject_frame (moved s i pressure at) i flag_update
    ]
  ]

  unfoldable pub touch_up : TouchState → TouchState
  touch_up s = elim (find_touch s.contacts pointer_id) [ none ↦ s | some i ↦ inject_lift s i ]

  unfoldable pub inject_touch : Desktop → TouchState → ℕ → Position → ℕ → TouchState
  inject_touch desktop s action position pressure =
      let place = map_position desktop position in
      if ltb (2 ^ 32 - 1) pointer_id then s else elim (decode action) [
        | down ↦ touch_down s place pressure
        | pointer_down ↦ touch_pointer_down s place pressure
        | move ↦ touch_move s place pressure
        | up ↦ touch_up s
        | pointer_up ↦ touch_up s
        | cancel ↦ cancel_touches windows s
        | other ↦ s
      ]
