-- ===== src/ControlMsg/Reader.antt =====
-- server/src/main/java/com/genymobile/scrcpy/control/ControlMessageReader.java: the device's
-- parser of the control messages, over the bytes that are left on the stream. `none` stands for an
-- exception: the stream has ended, the type is unknown, or a length is negative. Fixed-point
-- fields and texts are left as the words and bytes that the reader decodes afterwards.
pub mod Fields
use dskcpy.Prelude.{
  ◌&&◌, ◌||◌, ℕ, zero, suc, ◌≡◌, ◌+◌, ◌-◌, ◌*◌, ◌%◌, ◌^◌, ◌≤◌, ◌<◌, List, [], ◌∷◌, ◌++◌, Option,
  none, some, ◌>>=◌, ◌==◌, not, Bool, ℤ, to_i32, ltb, leb, if◌then◌else◌, bit_or,
}

-- `struct` of app/src/coords.h on the Java side.
pub record Position : Type 0 where
  pub x : ℤ
  pub y : ℤ
  pub width : ℕ
  pub height : ℕ

-- The factory methods `ControlMessage.create…` with their arguments.
pub data ControlMessage : Type 0 where
  inject_keycode : (action : ℕ) (keycode repeat meta_state : ℤ) → ControlMessage
  inject_text : (text : List ℕ) → ControlMessage
  inject_touch_event :
      (action pointer_id : ℕ) (position : Position) (pressure : ℕ) (action_button buttons : ℤ)
      → ControlMessage
  inject_scroll_event : (position : Position) (hscroll vscroll : ℕ) (buttons : ℤ) → ControlMessage
  back_or_screen_on : (action : ℕ) → ControlMessage
  get_clipboard : (copy_key : ℕ) → ControlMessage
  set_clipboard : (sequence : ℕ) (text : List ℕ) (paste : Bool) → ControlMessage
  set_display_power : (on : Bool) → ControlMessage
  uhid_create : (id vendor_id product_id : ℕ) (name report_desc : List ℕ) → ControlMessage
  uhid_input : (id : ℕ) (bytes : List ℕ) → ControlMessage
  uhid_destroy : (id : ℕ) → ControlMessage
  start_app : (name : List ℕ) → ControlMessage
  camera_set_torch : (on : Bool) → ControlMessage
  resize_display : (width height : ℕ) → ControlMessage
  scan_file : (path : List ℕ) → ControlMessage
  empty : (type : ℕ) → ControlMessage

-- What `java.io.DataInputStream` documents: big-endian words, and the exception at the end.
abbrev pub Read : Type 0 → Type 0
Read A = Option (A × List ℕ)

unfoldable pub read_u8 : List ℕ → Read ℕ
read_u8 [] = none
read_u8 (a ∷ s) = some (a, s)

unfoldable pub read_u16 : List ℕ → Read ℕ
unfolding read_u8
read_u16 s = do (a, s1) ← read_u8 s; (b, s2) ← read_u8 s1; some (a * 2 ^ 8 + b, s2)

unfoldable pub read_word : List ℕ → Read ℕ
unfolding read_u16
read_word s = do (hi, s1) ← read_u16 s; (lo, s2) ← read_u16 s1; some (hi * 2 ^ 16 + lo, s2)

unfoldable pub read_int : List ℕ → Read ℤ
read_int s = do (w, s1) ← read_word s; some (to_i32 w, s1)

-- A `long` is kept as its 64 bits.
unfoldable pub read_long : List ℕ → Read ℕ
read_long s = do (hi, s1) ← read_word s; (lo, s2) ← read_word s1; some (hi * 2 ^ 32 + lo, s2)

unfoldable pub read_boolean : List ℕ → Read Bool
unfolding read_u8
read_boolean s = do (b, s1) ← read_u8 s; some (not (b == 0), s1)

unfoldable pub read_fully : ℕ → List ℕ → Read (List ℕ)
read_fully zero s = some ([], s)
read_fully (suc n) [] = none
read_fully (suc n) (b ∷ s) = do (bs, s') ← read_fully n s; some (b ∷ bs, s')

-- `parseBufferLength`: `value = (value << 8) | byte` on 32 bits, so many times.
unfoldable pub parse_buffer_length : ℕ → ℕ → List ℕ → Read ℕ
unfolding read_u8
parse_buffer_length zero value s = some (value, s)
parse_buffer_length (suc n) value [] = none
parse_buffer_length (suc n) value (b ∷ s) =
    parse_buffer_length n (bit_or (value * 2 ^ 8 % 2 ^ 32) b) s

-- A length that is negative as an `int` throws.
unfoldable pub parse_byte_array : ℕ → List ℕ → Read (List ℕ)
parse_byte_array size_bytes s = do
  (len, s1) ← parse_buffer_length size_bytes 0 s
  if ltb len (2 ^ 31) then read_fully len s1 else none

unfoldable pub parse_position : List ℕ → Read Position
parse_position s = do
  (x, s1) ← read_int s
  (y, s2) ← read_int s1
  (width, s3) ← read_u16 s2
  (height, s4) ← read_u16 s3
  some (record { x = x; y = y; width = width; height = height }, s4)

parse_inject_keycode : List ℕ → Read ControlMessage
parse_inject_keycode s = do
  (action, s1) ← read_u8 s
  (keycode, s2) ← read_int s1
  (repeat, s3) ← read_int s2
  (meta_state, s4) ← read_int s3
  some (inject_keycode action keycode repeat meta_state, s4)

parse_inject_touch_event : List ℕ → Read ControlMessage
parse_inject_touch_event s = do
  (action, s1) ← read_u8 s
  (pointer_id, s2) ← read_long s1
  (position, s3) ← parse_position s2
  (pressure, s4) ← read_u16 s3
  (action_button, s5) ← read_int s4
  (buttons, s6) ← read_int s5
  some (inject_touch_event action pointer_id position pressure action_button buttons, s6)

parse_inject_scroll_event : List ℕ → Read ControlMessage
parse_inject_scroll_event s = do
  (position, s1) ← parse_position s
  (hscroll, s2) ← read_u16 s1
  (vscroll, s3) ← read_u16 s2
  (buttons, s4) ← read_int s3
  some (inject_scroll_event position hscroll vscroll buttons, s4)

parse_set_clipboard : List ℕ → Read ControlMessage
parse_set_clipboard s = do
  (sequence, s1) ← read_long s
  (paste, s2) ← read_boolean s1
  (text, s3) ← parse_byte_array 4 s2
  some (set_clipboard sequence text paste, s3)

parse_uhid_create : List ℕ → Read ControlMessage
parse_uhid_create s = do
  (id, s1) ← read_u16 s
  (vendor_id, s2) ← read_u16 s1
  (product_id, s3) ← read_u16 s2
  (name, s4) ← parse_byte_array 1 s3
  (report_desc, s5) ← parse_byte_array 2 s4
  some (uhid_create id vendor_id product_id name report_desc, s5)

-- One field, and the message made of it.
with_field : {A : Type 0} → (A → ControlMessage) → Read A → Read ControlMessage
with_field make r = do (a, s) ← r; some (make a, s)

parse_uhid_input : List ℕ → Read ControlMessage
parse_uhid_input s = do
  (id, s1) ← read_u16 s
  (bytes, s2) ← parse_byte_array 2 s1
  some (uhid_input id bytes, s2)

parse_resize_display : List ℕ → Read ControlMessage
parse_resize_display s = do
  (width, s1) ← read_u16 s
  (height, s2) ← read_u16 s1
  some (resize_display width height, s2)

-- The `switch` of `read`.
unfoldable pub parse : ℕ → List ℕ → Read ControlMessage
unfolding parse_inject_keycode parse_inject_touch_event parse_inject_scroll_event
    parse_set_clipboard parse_uhid_create with_field parse_uhid_input parse_resize_display
parse type s =
    if type == 0
    then parse_inject_keycode s
    else if type == 1
    then with_field inject_text (parse_byte_array 4 s)
    else if type == 2
    then parse_inject_touch_event s
    else if type == 3
    then parse_inject_scroll_event s
    else if type == 4
    then with_field back_or_screen_on (read_u8 s)
    else if type == 8
    then with_field get_clipboard (read_u8 s)
    else if type == 9
    then parse_set_clipboard s
    else if type == 10
    then with_field set_display_power (read_boolean s)
    else if leb 5 type && leb type 7
    then some (empty type, s)
    else if type == 11 || type == 15 || type == 17 || type == 19 || type == 20
    then some (empty type, s)
    else if type == 12
    then parse_uhid_create s
    else if type == 13
    then parse_uhid_input s
    else if type == 14
    then with_field uhid_destroy (read_u16 s)
    else if type == 16
    then with_field start_app (parse_byte_array 1 s)
    else if type == 18
    then with_field camera_set_torch (read_boolean s)
    else if type == 21
    then parse_resize_display s
    else if type == 22
    then with_field scan_file (parse_byte_array 4 s)
    else none

unfoldable pub read : List ℕ → Read ControlMessage
unfolding parse read_u8
read s = do (type, s1) ← read_u8 s; parse type s1
