-- ===== src/Reverse/Touch.antt =====
-- app/src/reverse_display.c, `reverse_find_touch` to `reverse_inject_touch`: the touches of the
-- device become touches of Windows, or the mouse where Windows refuses them. The contacts in use are
-- a list. What Windows answers is a parameter of each call and what was called before; the calls are
-- in the state, the latest one first.
pub mod Mouse
pub mod TwoFingers
pub mod Contacts
pub mod Inject
pub mod Frames
pub mod Held
pub mod Inv
use dskcpy.Prelude.{
  sub_ℤ, add_ℤ, ℕ, zero, suc, ◌+◌, ◌-◌, ◌*◌, ◌/◌, ◌%◌, ◌^◌, List, [], ◌∷◌, ◌++◌, Option, none, some,
  Bool, true, false, not, ◌&&◌, ◌||◌, ℤ, pos, negsuc, pos_part,
}
use dskcpy.Prelude.{length, get_or, set, leb, ltb, ◌==◌, if◌then◌else◌, bit_and}
use dskcpy.ControlMsg.Types.{Position}
use dskcpy.Reverse.Geometry.{Desktop, map_position, clamp_ℤ}

abbrev pub max_touches : ℕ
max_touches = 10

abbrev pub no_primary : ℕ
no_primary = 2 ^ 64 - 1

pub record Contact : Type 0 where
  pub pointer_id : ℕ
  pub x : ℤ
  pub y : ℤ
  pub pressure : ℕ

-- The flags of a pointer: `DOWN | INRANGE | INCONTACT`, `UPDATE | INRANGE | INCONTACT`, `UP`, and
-- `CANCELED | UP`.
pub data PointerFlags : Type 0 where
  flag_down flag_update flag_up flag_canceled : PointerFlags

pub data Button : Type 0 where
  button_none left_down left_up : Button

pub record TouchInfo : Type 0 where
  pub pointer_id : ℕ
  pub pointer_flags : PointerFlags
  pub x : ℤ
  pub y : ℤ
  pub pressure : ℕ
  pub left : ℤ
  pub top : ℤ
  pub right : ℤ
  pub bottom : ℤ

-- `InjectTouchInput`, and `SendInput` with one mouse event.
pub data Call : Type 0 where
  touches : (contacts : List TouchInfo) → Call
  mouse : (dx dy : ℕ) (button : Button) → Call

-- `GetSystemMetrics` for the virtual screen.
pub record Metrics : Type 0 where
  pub virtual_left : ℤ
  pub virtual_top : ℤ
  pub virtual_width : ℕ
  pub virtual_height : ℕ

-- Whether Windows accepts a call after the calls before it, and its metrics after them.
pub record Windows : Type 0 where
  pub accepts : List Call → Call → Bool
  pub metrics : List Call → Metrics

pub record TouchState : Type 0 where
  pub contacts : List Contact
  pub primary_pointer_id : ℕ
  pub use_mouse_fallback : Bool
  pub mouse_fallback_active : Bool
  pub mouse_fallback_pointer_id : ℕ
  pub calls : List Call

abbrev pub no_contact : Contact
no_contact = record { pointer_id = 0; x = pos 0; y = pos 0; pressure = 0 }

abbrev pub after : Option ℕ → Option ℕ
after o = elim o [ none ↦ none | some i ↦ some (suc i) ]

-- `none` is the result `REVERSE_DISPLAY_MAX_TOUCHES`.
unfoldable pub find_touch : List Contact → ℕ → Option ℕ
find_touch [] pointer_id = none
find_touch (c ∷ cs) pointer_id =
    let later = after (find_touch cs pointer_id) in
    if c.pointer_id == pointer_id then some 0 else later

-- The pressure as a 16-bit fixed-point word, which is exact as a float.
unfoldable pub touch_pressure : ℕ → ℕ
touch_pressure u = if u == 0 then 0 else if u == 0xffff then 1024 else u * 1024 / 2 ^ 16

-- `none` where there are too many contacts.
unfoldable pub add_touch : TouchState → Contact → Option TouchState
add_touch s contact =
    if leb max_touches (length s.contacts)
    then none
    else some (record s { contacts = s.contacts ++ (contact ∷ []) })

unfoldable pub remove_touch : List Contact → ℕ → List Contact
remove_touch [] index = []
remove_touch (c ∷ cs) zero = cs
remove_touch (c ∷ cs) (suc index) = c ∷ remove_touch cs index

abbrev pub contact_radius : ℤ
contact_radius = pos 2

unfoldable pub make_touch_info : Contact → PointerFlags → TouchInfo
make_touch_info c pointer_flags = record {
  pointer_id = c.pointer_id % 2 ^ 32;
  pointer_flags = pointer_flags;
  x = c.x;
  y = c.y;
  pressure = c.pressure;
  left = sub_ℤ c.x contact_radius;
  top = sub_ℤ c.y contact_radius;
  right = add_ℤ c.x contact_radius;
  bottom = add_ℤ c.y contact_radius;
}

unfoldable pub all_with : PointerFlags → List Contact → List TouchInfo
all_with flags [] = []
all_with flags (c ∷ cs) = make_touch_info c flags ∷ all_with flags cs

-- The infos of a frame, with the flags for the contact at the index and updates for the others.
unfoldable pub frame : List Contact → ℕ → PointerFlags → List TouchInfo
frame [] changed flags = []
frame (c ∷ cs) zero flags = make_touch_info c flags ∷ all_with flag_update cs
frame (c ∷ cs) (suc i) flags = make_touch_info c flag_update ∷ frame cs i flags

abbrev pub is_up : PointerFlags → Bool
is_up flags = elim flags [ flag_up ↦ true | flag_canceled ↦ true | _ ↦ false ]

abbrev pub is_update : PointerFlags → Bool
is_update flags = elim flags [ flag_update ↦ true | _ ↦ false ]

abbrev pub cleared : TouchState → TouchState
cleared s = record s { contacts = []; primary_pointer_id = no_primary }

-- The contact of the fallback, or the first one.
abbrev pub fallback_contact : TouchState → Contact
fallback_contact s = elim (find_touch s.contacts s.mouse_fallback_pointer_id) [
  | none ↦ get_or s.contacts 0 no_contact
  | some i ↦ get_or s.contacts i no_contact
]

-- The event for a contact: its place in the virtual screen, on a scale of 65535.
abbrev pub mouse_event : Metrics → Contact → Button → Call
mouse_event m contact button =
    let w = m.virtual_width - 1 in
    let h = m.virtual_height - 1 in
    let x = pos_part (clamp_ℤ (pos 0) (pos w) (sub_ℤ contact.x m.virtual_left)) in
    let y = pos_part (clamp_ℤ (pos 0) (pos h) (sub_ℤ contact.y m.virtual_top)) in
    mouse (x * 65535 / w) (y * 65535 / h) button

module _ (windows : Windows) where
  unfoldable pub call : TouchState → Call → Bool × TouchState
  call s c = (windows.accepts s.calls c, record s { calls = c ∷ s.calls })

  unfoldable pub send_mouse_event : TouchState → Contact → Button → Bool × TouchState
  send_mouse_event s contact button =
      let m = windows.metrics s.calls in
      if ltb m.virtual_width 2 || ltb m.virtual_height 2
      then (false, s)
      else call s (mouse_event m contact button)

  -- The three cases of `reverse_inject_mouse_frame` that send an event.
  unfoldable pub release : TouchState → Contact → Bool × TouchState
  release s changed =
      if s.mouse_fallback_active
      then (let (ok, s1) = send_mouse_event s changed left_up in
          (ok, record s1 { mouse_fallback_active = false }))
      else (true, s)

  unfoldable pub press : TouchState → Contact → Bool × TouchState
  press s contact =
      let (ok, s1) = send_mouse_event s contact left_down in
      if ok
      then (
        true,
        record s1 { mouse_fallback_active = true; mouse_fallback_pointer_id = contact.pointer_id },
      )
      else (false, s1)

  unfoldable pub inject_mouse_frame : TouchState → ℕ → PointerFlags → Bool × TouchState
  inject_mouse_frame s changed_index changed_flags =
      let changed = get_or s.contacts changed_index no_contact in
      let primary_index = find_touch s.contacts s.primary_pointer_id in
      if changed.pointer_id == s.primary_pointer_id && is_up changed_flags
      then release s changed
      else if not s.mouse_fallback_active
      then press s (elim primary_index [ none ↦ changed | some i ↦ get_or s.contacts i no_contact ])
      else elim primary_index [
        | none ↦ (true, s)
        | some i ↦
            if is_update changed_flags
            then send_mouse_event s (get_or s.contacts i no_contact) button_none
            else (true, s)
      ]

  unfoldable pub inject_touch_frame : TouchState → ℕ → PointerFlags → Bool × TouchState
  inject_touch_frame s changed_index changed_flags =
      let (ok, s1) = call s (touches (frame s.contacts changed_index changed_flags)) in
      if s.use_mouse_fallback
      then inject_mouse_frame s changed_index changed_flags
      else if ok
      then (true, s1)
      else inject_mouse_frame (record s1 { use_mouse_fallback = true }) changed_index changed_flags

  unfoldable pub cancel_touches : TouchState → TouchState
  cancel_touches s =
      if length s.contacts == 0
      then s
      else if s.use_mouse_fallback
      then cleared (
          if s.mouse_fallback_active
          then record (send_mouse_event s (fallback_contact s) left_up).1 {
            mouse_fallback_active = false;
          }
          else s)
      else cleared (call s (touches (all_with flag_canceled s.contacts))).1
