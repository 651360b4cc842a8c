-- ===== src/ControlMsg.antt =====
-- app/src/control_msg.h and control_msg.c: the messages from the client to the device, and how
-- they are serialized. Enums and unsigned fields are numbers, `int32_t` fields are integers, a
-- pointer that may be NULL is an option, and a pointer with its length is a list.
pub mod Types
pub mod Encode
pub mod Valid
pub mod Refine
pub mod Bounds
pub mod Reader
pub mod RoundTrip
use Types.{FloatOps, Position, ControlMsg}
use Types.{
  inject_keycode, inject_text, inject_touch_event, inject_scroll_event, back_or_screen_on,
  expand_notification_panel, expand_settings_panel, collapse_panels, get_clipboard, set_clipboard,
  set_display_power, rotate_device, uhid_create, uhid_input, uhid_destroy,
  open_hard_keyboard_settings, start_app, reset_video, camera_set_torch, camera_zoom_in,
  camera_zoom_out, resize_display, scan_file, unknown,
}
use dskcpy.Prelude.{
  ℕ, ◌+◌, ◌-◌, ◌^◌, ◌%◌, ℤ, List, Option, none, some, Bool, true, false, if◌then◌else◌, ◌>>=◌, ◌==◌,
  not, ◌&&◌,
}
use dskcpy.Prelude.{set, length, take, write_at, to_u16, to_u32}
use dskcpy.Util.Binary.{write16be, write32be, write64be, clamp_u16fp, clamp_i16fp}
use dskcpy.Util.Str.{utf8_truncation_index}

abbrev pub max_size : ℕ
max_size = 2 ^ 18

abbrev pub inject_text_max_length : ℕ
inject_text_max_length = 300

abbrev pub clipboard_text_max_length : ℕ
clipboard_text_max_length = max_size - 14

abbrev pub scan_file_path_max_length : ℕ
scan_file_path_max_length = 256

abbrev pub of_bool : Bool → ℕ
of_bool b = if b then 1 else 0

-- The writers take the buffer and the index at which they write; with a text they return the
-- number of bytes too, and stop at `none` where the truncation of the text is undefined.
unfoldable pub write_position : List ℕ → ℕ → Position → List ℕ
write_position buf i p =
    let b0 = write32be buf i (to_u32 p.x) in
    let b1 = write32be b0 (i + 4) (to_u32 p.y) in
    let b2 = write16be b1 (i + 8) p.width in write16be b2 (i + 10) p.height

unfoldable pub write_string_payload : List ℕ → ℕ → Option (List ℕ) → ℕ → Option (ℕ × List ℕ)
write_string_payload buf i none max_len = some (0, buf)
write_string_payload buf i (some utf8) max_len = do
  len ← utf8_truncation_index utf8 max_len
  some (len, write_at buf i (take len utf8))

unfoldable pub write_string : List ℕ → ℕ → Option (List ℕ) → ℕ → Option (ℕ × List ℕ)
unfolding write_string_payload
write_string buf i utf8 max_len = do
  (len, b) ← write_string_payload buf (i + 4) utf8 max_len
  some (4 + len, write32be b i len)

unfoldable pub write_string_tiny : List ℕ → ℕ → Option (List ℕ) → ℕ → Option (ℕ × List ℕ)
unfolding write_string_payload
write_string_tiny buf i utf8 max_len = do
  (len, b) ← write_string_payload buf (i + 1) utf8 max_len
  some (1 + len, set b i len)

module _ {Float : Type 0} (ops : FloatOps Float) where
  -- `CLAMP(f, -1, 1)`
  unfoldable pub clamp_unit : Float → Float
  clamp_unit f =
      let m = if ops.lt ops.neg_one f then f else ops.neg_one in
      if ops.lt m ops.one then m else ops.one

  -- `sc_float_to_u16fp` and `sc_float_to_i16fp`
  unfoldable pub float_to_u16fp : Float → Option ℕ
  float_to_u16fp f =
      if ops.le ops.zero f && ops.le f ops.one then clamp_u16fp (ops.times_2_16 f) else none

  unfoldable pub float_to_i16fp : Float → Option ℤ
  float_to_i16fp f =
      if ops.le ops.neg_one f && ops.le f ops.one then clamp_i16fp (ops.times_2_15 f) else none

  -- `sc_float_to_i16fp(CLAMP(scroll / 16, -1, 1))`, and its cast to `uint16_t`.
  unfoldable pub scroll_fp : Float → Option ℤ
  scroll_fp f = float_to_i16fp (clamp_unit (ops.div16 f))

  unfoldable pub scroll_word : Float → Option ℕ
  scroll_word f = scroll_fp f >>= λ i. some (to_u16 i)

  -- The result is the size and the buffer; a failed assertion is `none`.
  unfoldable pub serialize : ControlMsg Float → List ℕ → Option (ℕ × List ℕ)
  unfolding write_position write_string write_string_tiny
  serialize (inject_keycode action keycode repeat metastate) buf =
      let b0 = set buf 0 0 in
      let b1 = set b0 1 (action % 256) in
      let b2 = write32be b1 2 keycode in
      let b3 = write32be b2 6 repeat in some (14, write32be b3 10 metastate)
  serialize (inject_text text) buf = do
    (len, b) ← write_string (set buf 0 1) 1 text inject_text_max_length
    some (1 + len, b)
  serialize (inject_touch_event action action_button buttons pointer_id position pressure) buf =
      let b0 = set buf 0 2 in
      let b1 = set b0 1 (action % 256) in
      let b2 = write64be b1 2 pointer_id in
      let b3 = write_position b2 10 position in
      float_to_u16fp pressure >>= λ word.
      let b4 = write16be b3 22 word in
      let b5 = write32be b4 24 action_button in some (32, write32be b5 28 buttons)
  serialize (inject_scroll_event position hscroll vscroll buttons) buf =
      let b0 = set buf 0 3 in
      let b1 = write_position b0 1 position in
      scroll_word hscroll >>= λ h. scroll_word vscroll >>= λ v.
      let b2 = write16be b1 13 h in let b3 = write16be b2 15 v in some (21, write32be b3 17 buttons)
  serialize (back_or_screen_on action) buf = some (2, set (set buf 0 4) 1 (action % 256))
  serialize expand_notification_panel buf = some (1, set buf 0 5)
  serialize expand_settings_panel buf = some (1, set buf 0 6)
  serialize collapse_panels buf = some (1, set buf 0 7)
  serialize (get_clipboard copy_key) buf = some (2, set (set buf 0 8) 1 (copy_key % 256))
  serialize (set_clipboard sequence text paste) buf = do
    let b0 = set buf 0 9
    let b1 = write64be b0 1 sequence
    let b2 = set b1 9 (of_bool paste)
    (len, b) ← write_string b2 10 text clipboard_text_max_length
    some (10 + len, b)
  serialize (set_display_power on) buf = some (2, set (set buf 0 10) 1 (of_bool on))
  serialize rotate_device buf = some (1, set buf 0 11)
  serialize (uhid_create id vendor_id product_id name report_desc) buf = do
    let b0 = set buf 0 12
    let b1 = write16be b0 1 id
    let b2 = write16be b1 3 vendor_id
    let b3 = write16be b2 5 product_id
    (len, b4) ← write_string_tiny b3 7 name 127
    let index = 7 + len
    let b5 = write16be b4 index (length report_desc)
    let b6 = write_at b5 (index + 2) report_desc
    some (index + 2 + length report_desc, b6)
  serialize (uhid_input id bytes) buf =
      let b0 = set buf 0 13 in
      let b1 = write16be b0 1 id in
      let b2 = write16be b1 3 (length bytes) in some (5 + length bytes, write_at b2 5 bytes)
  serialize (uhid_destroy id) buf = some (3, write16be (set buf 0 14) 1 id)
  serialize open_hard_keyboard_settings buf = some (1, set buf 0 15)
  serialize (start_app name) buf = do
    (len, b) ← write_string_tiny (set buf 0 16) 1 name 255
    some (1 + len, b)
  serialize reset_video buf = some (1, set buf 0 17)
  serialize (camera_set_torch on) buf = some (2, set (set buf 0 18) 1 (of_bool on))
  serialize camera_zoom_in buf = some (1, set buf 0 19)
  serialize camera_zoom_out buf = some (1, set buf 0 20)
  serialize (resize_display width height) buf =
      let b0 = set buf 0 21 in let b1 = write16be b0 1 width in some (5, write16be b1 3 height)
  serialize (scan_file path) buf = do
    (len, b) ← write_string (set buf 0 22) 1 path scan_file_path_max_length
    some (1 + len, b)
  serialize (unknown t) buf = some (0, set buf 0 (t % 256))
