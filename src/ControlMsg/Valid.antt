-- ===== src/ControlMsg/Valid.antt =====
-- The values that the fields of a message can have in C, and texts that UTF-8 allows to cut.
use dskcpy.Prelude.{
  ℕ, ℤ, ◌≡◌, ◌≤◌, ◌<◌, ◌^◌, List, Option, none, some, false, IsBytes, IsI32, length, get_or,
}
use dskcpy.Util.Str.{is_continuation}
use dskcpy.ControlMsg.{float_to_u16fp, scroll_fp}
use dskcpy.ControlMsg.Types.{FloatOps, Position, ControlMsg}
use dskcpy.ControlMsg.Types.{
  inject_keycode, inject_text, inject_touch_event, inject_scroll_event, back_or_screen_on,
  get_clipboard, set_clipboard, uhid_create, uhid_input, uhid_destroy, start_app, resize_display,
  scan_file, unknown,
}

-- NULL, or bytes of which the first is not inside a character.
abbrev pub IsText : Option (List ℕ) → Type 0
IsText none = Unit {0}
IsText (some s) = IsBytes s × (is_continuation (get_or s 0 0) ≡ false)

pub record IsPosition (p : Position) : Type 0 where
  pub x_range : IsI32 p.x
  pub y_range : IsI32 p.y
  pub width_range : p.width < 2 ^ 16
  pub height_range : p.height < 2 ^ 16

abbrev pub IsValid : {Float : Type 0} → ControlMsg Float → Type 0
IsValid (inject_keycode action keycode repeat metastate) =
    (action < 256) × (keycode < 2 ^ 32) × (repeat < 2 ^ 32) × (metastate < 2 ^ 32)
IsValid (inject_text text) = IsText text
IsValid (inject_touch_event action action_button buttons pointer_id position pressure) =
    (action < 256)
    × (action_button < 2 ^ 32)
    × (buttons < 2 ^ 32)
    × (pointer_id < 2 ^ 64)
    × IsPosition position
IsValid (inject_scroll_event position hscroll vscroll buttons) =
    IsPosition position × (buttons < 2 ^ 32)
IsValid (back_or_screen_on action) = action < 256
IsValid (get_clipboard copy_key) = copy_key < 256
IsValid (set_clipboard sequence text paste) = (sequence < 2 ^ 64) × IsText text
IsValid (uhid_create id vendor_id product_id name report_desc) =
    (id < 2 ^ 16)
    × (vendor_id < 2 ^ 16)
    × (product_id < 2 ^ 16)
    × IsText name
    × (length report_desc < 2 ^ 16)
IsValid (uhid_input id bytes) = (id < 2 ^ 16) × (length bytes ≤ 15)
IsValid (uhid_destroy id) = id < 2 ^ 16
IsValid (start_app name) = IsText name
IsValid (resize_display width height) = (width < 2 ^ 16) × (height < 2 ^ 16)
IsValid (scan_file path) = IsText path
IsValid (unknown t) = ⊥
IsValid _ = Unit {0}

-- The assertions of the conversions of its floats hold.
abbrev pub IsConvertible : {Float : Type 0} → FloatOps Float → ControlMsg Float → Type 0
IsConvertible ops (inject_touch_event action action_button buttons pointer_id position pressure) =
    (word : ℕ) × (float_to_u16fp ops pressure ≡ some word)
IsConvertible ops (inject_scroll_event position hscroll vscroll buttons) =
    ((h : ℤ) × (scroll_fp ops hscroll ≡ some h)) × ((v : ℤ) × (scroll_fp ops vscroll ≡ some v))
IsConvertible ops _ = Unit {0}
